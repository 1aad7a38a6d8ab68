-- ===== src/L4lb/Dwarf.antt =====
-- l4lb/l4lbdrv/readdwarfstructs.go, and the layout assertions of bindings_generated.go. debug/elf
-- and debug/dwarf are parameters: the sections of the file, and the entries that the reader returns.
pub mod Read
pub mod Assert
mod Tests
use Prim.Native.String.{String}
use Prim.Native.String
use text.Mathlib.Text.{◌==◌ as str_eq}
use ncdn.Base.{
  ℕ, ◌-◌, ◌^◌, ◌%◌, Bool, true, false, Option, none, some, List, [], ◌∷◌, ◌⊎◌, inl, inr, ◌==◌,
  if◌then◌else◌,
}
use ncdn.Base.Int.{ℤ, pos, negsuc}
use ncdn.Base.Maps.{put, find_entry}

-- `dwarfReaderState`
pub data DwarfReaderState : Type 0 where
  skipping_non_structs : DwarfReaderState
  inside_struct : DwarfReaderState

-- `DWARFStruct`; a field is its name's offset.
pub record DwarfStruct : Type 0 where
  pub name : String
  pub size : ℤ
  pub fields : List (String × ℤ)

abbrev pub Structs : Type 0
Structs = List (String × DwarfStruct)

-- The tags that the reader tells apart.
pub data Tag : Type 0 where
  null : Tag
  struct_type : Tag
  member : Tag
  union_type : Tag
  other : Tag

-- An entry: its tag, and the attributes `AttrName`, `AttrByteSize` and `AttrDataMemberLoc` where they
-- have the type that the reader asks for.
pub record Entry : Type 0 where
  pub tag : Tag
  pub attr_name : Option String
  pub byte_size : Option ℤ
  pub member_loc : Option ℤ

-- `structs`, `state` and `curr`.
pub record Reader : Type 0 where
  pub structs : Structs
  pub state : DwarfReaderState
  pub curr : DwarfStruct

abbrev pub start : Reader
start = record {
  structs = [];
  state = skipping_non_structs;
  curr = record { name = ""; size = pos 0; fields = [] };
}

-- A struct begins.
abbrev pub begin : Reader → String → ℤ → Reader
begin r name size = record r {
  state = inside_struct;
  curr = record { name = name; size = size; fields = [] };
}

-- The round of a struct entry outside of a struct.
unfoldable pub read_struct : Reader → Option String → Option ℤ → Reader
read_struct r (some name) (some size) = begin r name size
read_struct r _ _ = r

-- The round of a member.
unfoldable pub read_member : Reader → Option String → Option ℤ → Reader
read_member r (some name) (some offset) = record r {
  curr = record r.curr { fields = put name offset r.curr.fields };
}
read_member r _ _ = r

unfoldable pub read_outside : Reader → Entry → Tag → Reader
read_outside r e struct_type = read_struct r e.attr_name e.byte_size
read_outside r e _ = r

unfoldable pub read_inside : Reader → Entry → Tag → Reader
read_inside r e null = record r {
  structs = put r.curr.name r.curr r.structs;
  state = skipping_non_structs;
}
read_inside r e member = read_member r e.attr_name e.member_loc
read_inside r e _ = r

-- A round of the loop with an entry.
unfoldable pub read_entry : Reader → Entry → DwarfReaderState → Reader
read_entry r e skipping_non_structs = read_outside r e e.tag
read_entry r e inside_struct = read_inside r e e.tag

-- The loop over what `r.Next` returns, to its end or to an error.
unfoldable pub read_entries : Reader → List (Entry ⊎ String) → Structs ⊎ String
read_entries r [] = inl r.structs
read_entries r (inl e ∷ es) = read_entries (read_entry r e r.state) es
read_entries r (inr error ∷ es) = inr (String.◌++◌ "Failed to r.Next: " error)

-- A file as debug/elf reads it: `none` for a section that it has not.
pub record Elf : Type 0 where
  pub section : String → Option (String ⊎ String)

-- debug/dwarf on the bytes of sections: the entries, or the error of `New` or `AddSection`.
pub record Dwarf : Type 0 where
  pub entries : List (String × String) → List (Entry ⊎ String) ⊎ String

abbrev pub required_sections : List String
required_sections =
    ".debug_abbrev" ∷ ".debug_info" ∷ ".debug_str" ∷ ".debug_str_offsets" ∷ ".debug_rnglists"
    ∷ ".debug_addr" ∷ []

-- The loop over the required sections.
unfoldable pub read_sections : Elf → List String → List (String × String) ⊎ String
read_sections f [] = inl []
read_sections f (name ∷ names) = elim (f.section name) [
  | none ↦ inr (String.◌++◌ "Failed to find section " name)
  | some (inr e) ↦ inr (String.◌++◌ "Failed to read section " (String.◌++◌ name e))
  | some (inl bs) ↦ elim (read_sections f names) [
    | inr e ↦ inr e
    | inl rest ↦ inl ((name, bs) ∷ rest)
  ]
]

-- `ReadDWARFStructs` of a file that `elf.Open` opened, or of its error.
unfoldable pub read_dwarf_structs : Dwarf → Elf ⊎ String → Structs ⊎ String
read_dwarf_structs d (inr e) = inr (String.◌++◌ "Failed to open bin: " e)
read_dwarf_structs d (inl f) = elim (read_sections f required_sections) [
  | inr e ↦ inr e
  | inl sections ↦ elim (d.entries sections) [ inr e ↦ inr e | inl es ↦ read_entries start es ]
]

-- `uintptr(n)` of an int64.
unfoldable pub uintptr : ℤ → ℕ
uintptr (pos n) = n % 2 ^ 64
uintptr (negsuc n) = 2 ^ 64 - 1 - n % 2 ^ 64

-- `fs[name].Offset`, with 0 for a name that has no field.
unfoldable pub offset_of : List (String × ℤ) → String → ℤ
offset_of fields name = elim (find_entry name fields) [ none ↦ pos 0 | some n ↦ n ]

-- The offsets that are compared, in their order: `none` is no error.
unfoldable pub assert_offsets : List (String × ℤ) → List (String × ℕ) → Option String
assert_offsets fields [] = none
assert_offsets fields ((name, offset) ∷ go) =
    let rest = assert_offsets fields go in
    if offset == uintptr (offset_of fields name)
    then rest
    else some (String.◌++◌ "offset mismatch: " name)

abbrev pub stat_counters_offsets : List (String × ℕ)
stat_counters_offsets =
    ("rx_packet_total", 0)
    ∷ ("rx_total_size", 8)
    ∷ ("too_short_packet_total", 16)
    ∷ ("non_ipv4_packet_total", 24)
    ∷ ("ip_option_packet_total", 32)
    ∷ ("non_supported_proto_packet_total", 40)
    ∷ ("no_vip_match_total", 48)
    ∷ ("failed_adjust_head_total", 56)
    ∷ ("failed_adjust_tail_total", 64)
    ∷ []

abbrev pub lb_config_offsets : List (String × ℕ)
lb_config_offsets = ("vip_address", 0) ∷ ("num_dests", 4) ∷ []

-- What the assertions of both structs do.
unfoldable pub assert_layout : ℕ → List (String × ℕ) → Option DwarfStruct → Option String
assert_layout go_size offsets none = some "DWARFStruct is nil"
assert_layout go_size offsets (some s) =
    if go_size == uintptr s.size then assert_offsets s.fields offsets else some "size mismatch"

-- `StatCountersAssertLayout`
unfoldable pub stat_counters_assert_layout : Option DwarfStruct → Option String
stat_counters_assert_layout = assert_layout 72 stat_counters_offsets

-- `LbConfigAssertLayout`
unfoldable pub lb_config_assert_layout : Option DwarfStruct → Option String
lb_config_assert_layout = assert_layout 8 lb_config_offsets

-- `LbAssertLayout`
unfoldable pub lb_assert_layout : Structs → Option String
lb_assert_layout m = elim (stat_counters_assert_layout (find_entry "stat_counters" m)) [
  | some e ↦ some (String.◌++◌ "stat_counters: " e)
  | none ↦ elim (lb_config_assert_layout (find_entry "lb_config" m)) [
    | some e ↦ some (String.◌++◌ "lb_config: " e)
    | none ↦ none
  ]
]
