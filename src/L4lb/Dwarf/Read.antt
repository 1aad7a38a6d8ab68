-- ===== src/L4lb/Dwarf/Read.antt =====
-- Structs as a compiler writes them, and what is read of them.
use Prim.Native.String.{String}
use ncdn.Base.{◌≢◌, ◌≡◌, refl, ap, ◌∙◌, none, some, List, [], ◌∷◌, ◌++◌, ◌⊎◌, inl, map, All}
use ncdn.Base.Int.{ℤ}
use ncdn.Base.Maps.{put}
use ncdn.L4lb.Dwarf.{
  DwarfStruct, Structs, Tag, null, struct_type, member, union_type, other, Entry, Reader, start,
  skipping_non_structs, inside_struct, read_struct, read_member, read_outside, read_inside,
  read_entry, read_entries,
}

-- A struct of C without structs or unions inside: its members with their offsets.
pub record CStruct : Type 0 where
  pub name : String
  pub size : ℤ
  pub members : List (String × ℤ)

abbrev pub member_entry : String × ℤ → Entry ⊎ String
member_entry (name, offset) =
    inl (record { tag = member; attr_name = some name; byte_size = none; member_loc = some offset })

abbrev pub null_entry : Entry
null_entry = record { tag = null; attr_name = none; byte_size = none; member_loc = none }

abbrev pub struct_entry : CStruct → Entry
struct_entry c = record {
  tag = struct_type;
  attr_name = some c.name;
  byte_size = some c.size;
  member_loc = none;
}

-- What stands between the structs: no struct.
abbrev pub IsBetween : Entry → Type 0
IsBetween e = e.tag ≢ struct_type

-- The entries of structs, each after what stands before it.
abbrev pub entries_of : List (List Entry × CStruct) → List (Entry ⊎ String)
entries_of [] = []
entries_of ((before, c) ∷ cs) =
    map inl before
    ++ (inl (struct_entry c) ∷ (map member_entry c.members ++ (inl null_entry ∷ entries_of cs)))

-- The fields of members: the last of a name.
abbrev pub fields_of : List (String × ℤ) → List (String × ℤ) → List (String × ℤ)
fields_of fields [] = fields
fields_of fields ((name, offset) ∷ members) = fields_of (put name offset fields) members

abbrev pub structs_of : Structs → List (List Entry × CStruct) → Structs
structs_of m [] = m
structs_of m ((before, c) ∷ cs) =
    structs_of
      (put c.name (record { name = c.name; size = c.size; fields = fields_of [] c.members }) m) cs

read_outside-between : (r : Reader) (e : Entry) (t : Tag) → t ≢ struct_type → read_outside r e t ≡ r
unfolding read_outside
read_outside-between r e null h = refl
read_outside-between r e struct_type h = absurd (h refl)
read_outside-between r e member h = refl
read_outside-between r e union_type h = refl
read_outside-between r e other h = refl

abbrev outside : Structs → DwarfStruct → Reader
outside m curr = record { structs = m; state = skipping_non_structs; curr = curr }

abbrev inside : Structs → DwarfStruct → Reader
inside m curr = record { structs = m; state = inside_struct; curr = curr }

read_entries-between :
    (before : List Entry) (rest : List (Entry ⊎ String)) (m : Structs) (curr : DwarfStruct)
    → All IsBetween before
    → read_entries (outside m curr) (map inl before ++ rest) ≡ read_entries (outside m curr) rest
unfolding read_entries read_entry
read_entries-between [] rest m curr h = refl
read_entries-between (e ∷ before) rest m curr h =
    ap (λ r. read_entries r (map inl before ++ rest))
      (read_outside-between (outside m curr) e e.tag h.0)
    ∙ read_entries-between before rest m curr h.1

read_entries-members :
    (members : List (String × ℤ)) (rest : List (Entry ⊎ String)) (m : Structs) (curr : DwarfStruct)
    → read_entries (inside m curr) (map member_entry members ++ rest)
      ≡ read_entries (inside m (record curr { fields = fields_of curr.fields members })) rest
unfolding read_entries read_entry read_inside read_member
read_entries-members [] rest m curr = refl
read_entries-members ((name, offset) ∷ members) rest m curr =
    read_entries-members members rest m (record curr { fields = put name offset curr.fields })

read_entries-entries_of :
    (cs : List (List Entry × CStruct)) (m : Structs) (curr : DwarfStruct)
    → All (λ c. All IsBetween c.0) cs
    → read_entries (outside m curr) (entries_of cs) ≡ inl (structs_of m cs)
unfolding read_entries read_entry read_outside read_inside read_struct
read_entries-entries_of [] m curr h = refl
read_entries-entries_of ((before, c) ∷ cs) m curr h =
    let opened : DwarfStruct = record { name = c.name; size = c.size; fields = [] } in
    let closed : DwarfStruct = record {
      name = c.name;
      size = c.size;
      fields = fields_of [] c.members;
    } in
    read_entries-between before _ m curr h.0
    ∙ read_entries-members c.members (inl null_entry ∷ entries_of cs) m opened
    ∙ read_entries-entries_of cs (put c.name closed m) closed h.1

-- The loop over the entries of structs.
pub read_entries-structs_of :
    (cs : List (List Entry × CStruct))
    → All (λ c. All IsBetween c.0) cs
    → read_entries start (entries_of cs) ≡ inl (structs_of [] cs)
read_entries-structs_of cs h = read_entries-entries_of cs [] start.curr h
