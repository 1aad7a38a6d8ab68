-- ===== src/L4lb/GenBindings.antt =====
-- The parser of l4lb/l4lbdrv/gen_bindings.go, and the functions of its template. The regular
-- expressions, `strconv.Atoi`, `strings.Split`, `%d` and the lines of the file are parameters.
pub mod Template
pub mod Emit
pub mod Grammar
mod Tests
use Prim.Native.Char.{Char, code}
use Prim.Native.String.{String}
use Prim.Native.String
use text.Mathlib.Text.{◌==◌ as str_eq}
use ncdn.Base.{
  ℕ, zero, suc, ◌+◌, ◌*◌, Bool, true, false, Option, none, some, List, [], ◌∷◌, ◌++◌, ◌⊎◌, inl, inr,
  ◌==◌, ltb, if◌then◌else◌,
}
use ncdn.Base.Int.{ℤ, pos, leb_ℤ}

abbrev pub concat : String → String → String
concat = String.◌++◌

pub record CField : Type 0 where
  pub name : String
  pub type : String
  pub size : ℕ
  pub array_size : ℤ
  pub source_line : String

pub record CStruct : Type 0 where
  pub name : String
  pub fields : List CField
  pub source_line : String
  pub derive_add : Bool
  pub derive_equals : Bool
  pub derive_string : Bool

pub record CConst : Type 0 where
  pub name : String
  pub value : ℤ
  pub source_line : String

pub record CFile : Type 0 where
  pub filename : String
  pub c_structs : List CStruct
  pub c_consts : List CConst

-- `ParserState`
pub data ParserState : Type 0 where
  no_extract : ParserState
  in_struct : ParserState

-- The groups of the first match of `reDefineConst`, `reStructBegin` and `reStructField`, if there is
-- one, and whether `reStructEnd` matches; the calls of strconv, strings and fmt.
pub record Scan : Type 0 where
  pub define_const : String → Option (String × String)
  pub struct_begin : String → Option (String × String)
  pub struct_field : String → Option (String × String × String × String)
  pub struct_end : String → Bool
  pub atoi : String → ℤ ⊎ String
  pub split : String → List String
  pub decimal : ℕ → String

-- `parsed`, `state`, `sourceLineNum` and `currentStruct` of `parseCSource`.
pub record Parser : Type 0 where
  pub parsed : CFile
  pub state : ParserState
  pub source_line_num : ℕ
  pub current_struct : CStruct

-- `CStruct{}`, and a struct of a name.
abbrev pub new_struct : String → String → CStruct
new_struct name source_line = record {
  name = name;
  fields = [];
  source_line = source_line;
  derive_add = false;
  derive_equals = false;
  derive_string = false;
}

-- A field of a size.
abbrev pub uint_field : String → ℤ → String → ℕ → CField ⊎ String
uint_field name n source_line size =
    inl (record {
      name = name;
      type = "uint";
      size = size;
      array_size = n;
      source_line = source_line;
    })

-- The switch over the type, with the array's size parsed.
unfoldable pub typed_field : String → String → ℤ → String → CField ⊎ String
typed_field typ name n source_line =
    if str_eq typ "uint8_t"
    then uint_field name n source_line 1
    else if str_eq typ "uint16_t"
    then uint_field name n source_line 2
    else if str_eq typ "uint32_t"
    then uint_field name n source_line 4
    else if str_eq typ "uint64_t"
    then uint_field name n source_line 8
    else inr (concat "Unknown type: " typ)

-- The size of an array: 0 for a field that is none.
unfoldable pub parse_array_size : Scan → String → ℤ ⊎ String
parse_array_size s array_size =
    if str_eq array_size "" then inl (pos 0) else elim (s.atoi array_size) [
      | inr e ↦ inr (concat "Failed to parse arraySize " (concat array_size (concat ": " e)))
      | inl n ↦ if leb_ℤ n (pos 0) then inr (concat "Invalid arraySize " array_size) else inl n
    ]

-- `parseCField`
unfoldable pub parse_c_field : Scan → String → String → String → String → CField ⊎ String
parse_c_field s typ name array_size source_line = elim (parse_array_size s array_size) [
  | inr e ↦ inr e
  | inl n ↦ typed_field typ name n source_line
]

-- The loop over the directives.
unfoldable pub add_directives : CStruct → List String → CStruct ⊎ String
add_directives c [] = inl c
add_directives c (d ∷ ds) =
    let c' : CStruct ⊎ String =
      if str_eq d "Add"
      then inl (record c { derive_add = true })
      else if str_eq d "Equals"
      then inl (record c { derive_equals = true })
      else if str_eq d "String"
      then inl (record c { derive_string = true })
      else if str_eq d ""
      then inl c
      else inr (concat "Unknown directive " d) in
    elim c' [ inr e ↦ inr e | inl next ↦ add_directives next ds ]

module _ (s : Scan) where
  -- `sourceLine()`
  abbrev pub source_line : String → ℕ → String
  source_line filename n = concat filename (concat ":" (s.decimal n))

  abbrev pub line_of : Parser → String
  line_of p = source_line p.parsed.filename p.source_line_num

  abbrev pub add_const : Parser → String → ℤ → Parser
  add_const p name value = record p {
    parsed = record p.parsed {
      c_consts =
          p.parsed.c_consts
          ++ (record { name = name; value = value; source_line = line_of p } ∷ []);
    };
  }

  -- A line outside of a struct that defines no constant.
  unfoldable pub parse_begin : Parser → String → Parser ⊎ String
  parse_begin p line = elim (s.struct_begin line) [
    | none ↦ inl p
    | some (cname, directives) ↦
        elim (add_directives (new_struct cname (line_of p)) (s.split directives)) [
          | inr e ↦ inr (concat (line_of p) (concat ": " e))
          | inl c ↦ inl (record p { state = in_struct; current_struct = c })
        ]
  ]

  -- The case `ParserStateNoExtract`.
  unfoldable pub parse_outside : Parser → String → Parser ⊎ String
  parse_outside p line = elim (s.define_const line) [
    | none ↦ parse_begin p line
    | some (name, digits) ↦ elim (s.atoi digits) [
      | inr e ↦ inr (concat (line_of p) (concat ": Failed to parse value " (concat digits e)))
      | inl value ↦ inl (add_const p name value)
    ]
  ]

  abbrev pub end_struct : Parser → Parser
  end_struct p = record p {
    state = no_extract;
    parsed = record p.parsed { c_structs = p.parsed.c_structs ++ (p.current_struct ∷ []) };
    current_struct = new_struct "" "";
  }

  abbrev pub add_field : Parser → CField → Parser
  add_field p f = record p {
    current_struct = record p.current_struct { fields = p.current_struct.fields ++ (f ∷ []) };
  }

  -- A line of a struct that does not end it.
  unfoldable pub parse_field : Parser → String → Parser ⊎ String
  parse_field p line = elim (s.struct_field line) [
    | none ↦ inl p
    | some (typ, name, array_size, _) ↦ elim (parse_c_field s typ name array_size (line_of p)) [
      | inr e ↦ inr (concat (line_of p) (concat ": Failed to parse type " (concat typ e)))
      | inl f ↦ inl (add_field p f)
    ]
  ]

  -- The case `ParserStateStruct`.
  unfoldable pub parse_inside : Parser → String → Parser ⊎ String
  parse_inside p line = if s.struct_end line then inl (end_struct p) else parse_field p line

  abbrev pub next_line : Parser → Parser
  next_line p = record p { source_line_num = suc p.source_line_num }

  -- A round of the loop.
  unfoldable pub parse_line : ParserState → Parser → String → Parser ⊎ String
  parse_line no_extract p line = parse_outside (next_line p) line
  parse_line in_struct p line = parse_inside (next_line p) line

  -- The loop.
  unfoldable pub parse_lines : Parser → List String → Parser ⊎ String
  parse_lines p [] = inl p
  parse_lines p (line ∷ lines) = elim (parse_line p.state p line) [
    | inr e ↦ inr e
    | inl p' ↦ parse_lines p' lines
  ]

  abbrev pub new_parser : String → Parser
  new_parser filename = record {
    parsed = record { filename = filename; c_structs = []; c_consts = [] };
    state = no_extract;
    source_line_num = 0;
    current_struct = new_struct "" "";
  }

  -- `parseCSource` of a file that was opened: its lines, and the scanner's error.
  unfoldable pub parse_c_source : String → List String → Option String → CFile ⊎ String
  parse_c_source filename lines error = elim (parse_lines (new_parser filename) lines) [
    | inr e ↦ inr e
    | inl p ↦ elim error [
      | some e ↦ inr (concat "bufio.Scanner failed " (concat filename e))
      | none ↦ inl p.parsed
    ]
  ]

-- `goType` of a field that `parseCField` made.
unfoldable pub go_type : (ℕ → String) → CField → String
go_type decimal f =
    let elem = concat "uint" (decimal (f.size * 8)) in
    elim f.array_size [
      | pos n ↦ if ltb 0 n then concat "[" (concat (decimal n) (concat "]" elem)) else elem
      | _ ↦ elem
    ]

-- The loop of `snakeCaseToCamelCase`, with `unicode.ToUpper`.
unfoldable pub camel_case : (Char → Char) → Bool → String → String
camel_case to_upper upper String.[] = ""
camel_case to_upper upper (String.◌∷◌ r s) =
    let after = camel_case to_upper true s in
    let rest = camel_case to_upper false s in
    if code r == b'_' then after else String.◌∷◌ (if upper then to_upper r else r) rest

-- `snakeCaseToCamelCase`
abbrev pub snake_case_to_camel_case : (Char → Char) → String → String
snake_case_to_camel_case to_upper = camel_case to_upper true
