-- ===== src/Tests/Generator.antt =====
-- The macros at a container of a number of four bytes and one of eight.
use c_ssz.Common.{
  ℕ, ◌+◌, ◌^◌, ◌<◌, ◌≡◌, refl, arith, List, [], ◌∷◌, ◌++◌, Option, some, done, ◌>>=◌, replicate,
  length, All,
}
use c_ssz.Types.{success}
use c_ssz.Host.{little, le_bytes}
use c_ssz.Serialize.Uints.{serialize_uint32, serialize_uint64}
use c_ssz.Deserialize.Uints.{deserialize_uint32, deserialize_uint64}
use c_ssz.Generator.{SerializeFn, of_written, Writer, DeserializeFn, of_read, Reading}
use c_ssz.Generator.Output.{serialize_basic_field, serialize_container}
use c_ssz.Generator.Input.{deserialize_basic_field, on_field, deserialize_container, Sequence}
use c_ssz.Generator.Lists.{serialize_list, deserialize_list}
use c_ssz.Generator.Variable.{
  serialize_list_variable_container_field, deserialize_list_variable_container_field,
}
use c_ssz.Generator.Codec.{
  Serializes, Deserializes, AllWrites, AllReads, write_with-Writes, read_with-Reads, on_field-Reads,
  joined, serialize_container-Serializes, deserialize_container-Deserializes,
}
use c_ssz.Generator.Basic.{
  uint32-Serializes, uint64-Serializes, uint32-Deserializes, uint64-Deserializes,
}
use c_ssz.Generator.Unrolled.{write_all, finish_list, serialize_list-write_all}
use c_ssz.Generator.Offsets.{variable_bytes}
use c_ssz.Generator.Objects.{serialize_list_variable_container_field_lem}
use c_ssz.Generator.Reading.{variable_list_round_trip}
use c_ssz.Generator.RoundTrip.{container_round_trip, list_round_trip}

record Entry : Type 0 where
  slot : ℕ
  balance : ℕ

abbrev uint32_func : ℕ → SerializeFn
uint32_func v buf size = serialize_uint32 (some v) (some buf) (some size) >>= of_written

abbrev uint64_func : ℕ → SerializeFn
uint64_func v buf size = serialize_uint64 (some v) (some buf) (some size) >>= of_written

abbrev from_uint32 : DeserializeFn ℕ
from_uint32 bytes size cell = deserialize_uint32 (some bytes) size (some cell) >>= of_read

abbrev from_uint64 : DeserializeFn ℕ
from_uint64 bytes size cell = deserialize_uint64 (some bytes) size (some cell) >>= of_read

abbrev writers : Entry → List Writer
writers entry =
    serialize_basic_field (entry.slot) 4 uint32_func
    ∷ serialize_basic_field (entry.balance) 8 uint64_func
    ∷ []

abbrev set_slot : ℕ → Entry → Entry
set_slot v entry = record entry { slot = v }

abbrev set_balance : ℕ → Entry → Entry
set_balance v entry = record entry { balance = v }

abbrev readers : List (Reading Entry)
readers =
    on_field (λ entry. entry.slot) set_slot (deserialize_basic_field 4 from_uint32)
    ∷ on_field (λ entry. entry.balance) set_balance (deserialize_basic_field 8 from_uint64)
    ∷ []

abbrev encodings : Entry → List (List ℕ)
encodings entry = le_bytes 4 (entry.slot) ∷ le_bytes 8 (entry.balance) ∷ []

abbrev IsGood : Entry → Type 0
IsGood entry = (entry.slot < 2 ^ 32) × (entry.balance < 2 ^ 64)

writes : (entry : Entry) → AllWrites (writers entry) (encodings entry)
unfolding serialize_basic_field
writes entry = (
  write_with-Writes 4 (uint32_func (entry.slot)) (le_bytes 4 (entry.slot))
      (uint32-Serializes (entry.slot)),
  (
    write_with-Writes 8 (uint64_func (entry.balance)) (le_bytes 8 (entry.balance))
        (uint64-Serializes (entry.balance)),
    tt,
  ),
)

reads : (entry old : Entry) → IsGood entry → AllReads readers (encodings entry) old entry
unfolding deserialize_basic_field le_bytes
reads entry old (hs, hb) = (
  set_slot (entry.slot) old,
  on_field-Reads (λ e. e.slot) set_slot (deserialize_basic_field 4 from_uint32)
      (le_bytes 4 (entry.slot)) old (entry.slot)
      (read_with-Reads from_uint32 (le_bytes 4 (entry.slot)) (old.slot) (entry.slot)
        (uint32-Deserializes (entry.slot) (old.slot) hs)),
  (
    entry,
    on_field-Reads (λ e. e.balance) set_balance (deserialize_basic_field 8 from_uint64)
        (le_bytes 8 (entry.balance)) (set_slot (entry.slot) old) (entry.balance)
        (read_with-Reads from_uint64 (le_bytes 8 (entry.balance)) (old.balance) (entry.balance)
          (uint64-Deserializes (entry.balance) (old.balance) hb)),
    refl,
  ),
)

abbrev entry_func : Entry → SerializeFn
entry_func entry = serialize_container (writers entry)

abbrev from_entry : DeserializeFn Entry
from_entry = deserialize_container readers

abbrev encode : Entry → List ℕ
encode entry = joined (encodings entry)

sized : (entry : Entry) → IsGood entry → length (encode entry) ≡ 12
unfolding le_bytes
sized entry good = refl

entry_writes : (entry : Entry) → IsGood entry → Serializes (entry_func entry) 0 (encode entry)
entry_writes entry good =
    serialize_container-Serializes (writers entry) (encodings entry) 0 (writes entry)
      (omega (arith, sized entry good))

entry_reads : (entry old : Entry) → IsGood entry → Deserializes from_entry (encode entry) old entry
entry_reads entry old good =
    deserialize_container-Deserializes readers (encodings entry) old entry (reads entry old good)
      (omega (arith, sized entry good))

abbrev first : Entry
first = record { slot = 7; balance = 32000000000 }

abbrev second : Entry
second = record { slot = 300; balance = 5 }

abbrev blank : Entry
blank = record { slot = 0; balance = 0 }

abbrev space : List ℕ
space = replicate 12 9

container_round_trip_example :
    (out : List ℕ) × (serialize_container (writers first) (space ++ (1 ∷ [])) 4
      ≡ done (success, out, length (encode first)))
    × (deserialize_container readers out (length (encode first)) blank ≡ done (success, first))
unfolding le_bytes
container_round_trip_example =
    container_round_trip (writers first) readers (encodings first) blank first space (1 ∷ []) 4
      (writes first) (reads first blank (omega arith, omega arith)) (omega arith) refl

abbrev entries : List Entry
entries = first ∷ second ∷ first ∷ second ∷ second ∷ []

abbrev heap : ℕ → Option (List Entry)
heap n = some (replicate n blank)

abbrev empty_list : Sequence Entry
empty_list = record { count = 0; items = [] }

list_round_trip_example :
    (out : List ℕ) × (serialize_list entry_func 5
        (some (entries ++ (blank ∷ [])))
        (replicate 60 1 ++ (2 ∷ []))
        0
      ≡ done (success, out, 60))
    × (deserialize_list 12 from_entry heap out 60 empty_list
        ≡ done (success, record { count = 5; items = entries }))
list_round_trip_example =
    list_round_trip entry_func from_entry encode IsGood 12 sized entry_writes entry_reads entries
      (replicate 5 blank) good refl (blank ∷ []) (replicate 60 1) (2 ∷ []) 0 heap empty_list
      (omega arith) (omega arith) refl refl
  where
    small₁ : IsGood first
    small₁ = (omega arith, omega arith)

    small₂ : IsGood second
    small₂ = (omega arith, omega arith)

    good : All IsGood entries
    good = (small₁, (small₂, (small₁, (small₂, (small₂, tt)))))

serialize_list-write_all_example :
    serialize_list entry_func 5 (some (entries ++ (blank ∷ []))) (replicate 60 1) 0
    ≡ (write_all entry_func entries (replicate 60 1) 0 >>= finish_list 0)
serialize_list-write_all_example =
    serialize_list-write_all entry_func entries (blank ∷ []) (replicate 60 1) 0

serialize_list_variable_container_field_lem_example :
    serialize_list_variable_container_field entry_func 2
      (first ∷ second ∷ blank ∷ [])
      ((1 ∷ 2 ∷ []) ++ (replicate 32 9 ++ (3 ∷ [])))
      2
    ≡ done (
      success,
      (1 ∷ 2 ∷ []) ++ (variable_bytes (encode first ∷ encode second ∷ []) ++ (3 ∷ [])),
      34,
    )
unfolding le_bytes
serialize_list_variable_container_field_lem_example =
    serialize_list_variable_container_field_lem entry_func encode IsGood entry_writes
      (first ∷ second ∷ []) (blank ∷ [])
      ((omega arith, omega arith), ((omega arith, omega arith), tt)) (1 ∷ 2 ∷ []) (replicate 32 9)
      (3 ∷ []) refl (omega arith)

variable_list_round_trip_example :
    (out : List ℕ) × (field_size : ℕ) × (serialize_list_variable_container_field entry_func 2
        (first ∷ second ∷ blank ∷ [])
        ((1 ∷ 2 ∷ []) ++ (replicate 32 9 ++ (3 ∷ [])))
        2
      ≡ done (success, out, 2 + field_size))
    × (deserialize_list_variable_container_field little from_entry heap 2 field_size 4 out
          empty_list
        ≡ done (success, record { count = 2; items = first ∷ second ∷ [] }))
unfolding le_bytes
variable_list_round_trip_example =
    variable_list_round_trip from_entry encode IsGood entry_reads entry_func entry_writes
      (first ∷ second ∷ []) (blank ∷ []) (blank ∷ blank ∷ []) 4 heap empty_list (1 ∷ 2 ∷ [])
      (replicate 32 9) (3 ∷ []) ((omega arith, omega arith), ((omega arith, omega arith), tt))
      (omega arith) (omega arith) refl refl refl (omega arith)
