-- ===== src/L4lb/GenBindings/Template.antt =====
-- The template of l4lb/l4lbdrv/gen_bindings.go: one function per range and condition of it. `%d` and
-- `unicode.ToUpper` are parameters.
use Prim.Native.Char.{Char}
use Prim.Native.String.{String}
use text.Mathlib.Text.{◌==◌ as str_eq}
use ncdn.Base.{ℕ, suc, List, [], ◌∷◌, ◌⊎◌, inl, inr, if◌then◌else◌}
use ncdn.Base.Int.{ℤ, pos, negsuc}
use ncdn.L4lb.GenBindings.{
  concat, CField, CStruct, CConst, CFile, go_type, snake_case_to_camel_case,
}

unfoldable pub concat_all : List String → String
concat_all [] = ""
concat_all (t ∷ ts) = concat t (concat_all ts)

-- A range whose body cannot fail.
unfoldable pub each {ℓ} : {A : Type ℓ} → (A → String) → List A → String
each f [] = ""
each f (x ∷ xs) = concat (f x) (each f xs)

-- A range that ends with the first failure of its body.
unfoldable pub try_each {ℓ} : {A : Type ℓ} → (A → String ⊎ String) → List A → String ⊎ String
try_each f [] = inl ""
try_each f (x ∷ xs) = elim (f x) [
  | inr e ↦ inr e
  | inl t ↦ elim (try_each f xs) [ inr e ↦ inr e | inl ts ↦ inl (concat t ts) ]
]

unfoldable pub int_text : (ℕ → String) → ℤ → String
int_text decimal (pos n) = decimal n
int_text decimal (negsuc n) = concat "-" (decimal (suc n))

-- `goType`; a panic of it is an error of the template.
unfoldable pub checked_go_type : (ℕ → String) → CField → String ⊎ String
checked_go_type decimal f =
    if str_eq f.type "uint"
    then inl (go_type decimal f)
    else inr (concat "goType: Unknown type: " f.type)

module _ (decimal : ℕ → String) (to_upper : Char → Char) where
  abbrev camel : String → String
  camel = snake_case_to_camel_case to_upper

  unfoldable pub const_text : CConst → String
  const_text c =
      concat_all ("\n" ∷ c.name ∷ " = " ∷ int_text decimal c.value ∷ " // " ∷ c.source_line ∷ [])

  unfoldable pub field_text : CField → String ⊎ String
  field_text f = elim (checked_go_type decimal f) [
    | inr e ↦ inr e
    | inl type ↦ inl (concat_all ("\n\t" ∷ camel f.name ∷ " " ∷ type ∷ " // " ∷ f.source_line ∷ []))
  ]

  unfoldable pub offset_text : String → CField → String
  offset_text go_struct_name f = concat_all (
      "\n\tgoff = unsafe.Offsetof("
      ∷ go_struct_name
      ∷ "{}."
      ∷ camel f.name
      ∷ ")\n\tdoff = fs[\""
      ∷ f.name
      ∷ "\"].Offset\n\tif goff != uintptr(doff) {\n"
      ∷ "\t\treturn fmt.Errorf(\"offset mismatch: go "
      ∷ camel f.name
      ∷ ": %d, dwarf "
      ∷ f.name
      ∷ ": %d\", goff, doff)\n\t}"
      ∷ [])

  -- The field's part of `Add`, and the method of a struct that derives it.
  unfoldable pub add_line : CField → String
  add_line f = concat_all ("\n\tc." ∷ camel f.name ∷ " += other." ∷ camel f.name ∷ [])

  unfoldable pub add_text : CStruct → String
  add_text s =
      if s.derive_add
      then concat_all (
          "\nfunc (c *"
          ∷ camel s.name
          ∷ ") Add(other *"
          ∷ camel s.name
          ∷ ") {"
          ∷ each add_line s.fields
          ∷ "\n}\n"
          ∷ [])
      else ""

  -- The field's part of `Equals`, and the method of a struct that derives it.
  unfoldable pub equals_line : CField → String
  equals_line f =
      concat_all
        ("\n\tif c." ∷ camel f.name ∷ " != other." ∷ camel f.name ∷ " { return false }" ∷ [])

  unfoldable pub equals_text : CStruct → String
  equals_text s =
      if s.derive_equals
      then concat_all (
          "\nfunc (c *"
          ∷ camel s.name
          ∷ ") Equals(other *"
          ∷ camel s.name
          ∷ ") bool {"
          ∷ each equals_line s.fields
          ∷ "\n\treturn true\n}\n"
          ∷ [])
      else ""

  -- The field's part of `String`, and the method of a struct that derives it.
  unfoldable pub string_line : CField → String
  string_line f = concat_all (
      "\n\tif c."
      ∷ camel f.name
      ∷ " != 0 {\n\t\tbuf.WriteString(fmt.Sprintf(\""
      ∷ camel f.name
      ∷ "=%d, \", c."
      ∷ camel f.name
      ∷ "))\n\t}"
      ∷ [])

  unfoldable pub string_text : CStruct → String
  string_text s =
      if s.derive_string
      then concat_all (
          "\nfunc (c *"
          ∷ camel s.name
          ∷ ") String() string {\n\tvar buf bytes.Buffer\n\tbuf.WriteString(\""
          ∷ camel s.name
          ∷ "{\")"
          ∷ each string_line s.fields
          ∷ "\n\tif strings.HasSuffix(buf.String(), \", \") {\n"
          ∷ "\t\tbuf.Truncate(buf.Len() - 2)\n\t}\n\tbuf.WriteString(\"}\")\n"
          ∷ "\treturn buf.String()\n}\n"
          ∷ [])
      else ""

  unfoldable pub struct_text : CStruct → String ⊎ String
  struct_text s = elim (try_each field_text s.fields) [
    | inr e ↦ inr e
    | inl types ↦ inl (
        concat_all (
          "\n"
          ∷ "\ntype "
          ∷ camel s.name
          ∷ " struct { // "
          ∷ s.source_line
          ∷ types
          ∷ "\n}\n\nfunc "
          ∷ camel s.name
          ∷ "AssertLayout(s *DWARFStruct) error {\n\tif s == nil {\n"
          ∷ "\t\treturn fmt.Errorf(\"DWARFStruct is nil\")\n\t}\n\n\tgosize := unsafe.Sizeof("
          ∷ camel s.name
          ∷ "{})\n\tif gosize != uintptr(s.Size) {\n"
          ∷ "\t\treturn fmt.Errorf(\"size mismatch: go: %d, dwarf: %d\", gosize, s.Size)\n"
          ∷ "\t}\n\n\tfs := s.Fields\n\n\tvar goff uintptr\n\tvar doff int64"
          ∷ each (offset_text (camel s.name)) s.fields
          ∷ "\n\n\treturn nil\n}\n"
          ∷ add_text s
          ∷ "\n"
          ∷ equals_text s
          ∷ "\n"
          ∷ string_text s
          ∷ "\n"
          ∷ []))
  ]

  -- The part of the function that checks all layouts of the file.
  unfoldable pub assert_text : CStruct → String
  assert_text s = concat_all (
      "\n\tif err := "
      ∷ camel s.name
      ∷ "AssertLayout(m[\""
      ∷ s.name
      ∷ "\"]); err != nil {\n\t\treturn fmt.Errorf(\""
      ∷ s.name
      ∷ ": %v\", err)\n\t}"
      ∷ [])

  -- A file, with `assertLayoutsFuncName`.
  unfoldable pub file_text : (String → String) → CFile → String ⊎ String
  file_text assert_layouts_func_name f = elim (try_each struct_text f.c_structs) [
    | inr e ↦ inr e
    | inl structs ↦ inl (
        concat_all (
          "\n// Source: "
          ∷ f.filename
          ∷ "\n\nconst (\n"
          ∷ each const_text f.c_consts
          ∷ "\n)\n\n"
          ∷ structs
          ∷ "\n\nfunc "
          ∷ assert_layouts_func_name f.filename
          ∷ "(m map[string]*DWARFStruct) error {"
          ∷ each assert_text f.c_structs
          ∷ "\n\treturn nil\n}\n"
          ∷ []))
  ]

  -- `GO_TEMPLATE`
  unfoldable pub go_template : (String → String) → List CFile → String ⊎ String
  go_template assert_layouts_func_name fs =
      elim (try_each (file_text assert_layouts_func_name) fs) [
        | inr e ↦ inr e
        | inl files ↦ inl (
            concat_all (
              "package l4lbdrv\n"
              ∷ "// This file is auto generated by gen_bindings.go. Do not modify.\n\nimport (\n"
              ∷ "\t\"bytes\"\n\t\"fmt\"\n\t\"strings\"\n\t\"unsafe\"\n)\n\n" ∷ files ∷ "\n" ∷ []))
      ]
