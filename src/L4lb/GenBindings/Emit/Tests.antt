-- ===== src/L4lb/GenBindings/Emit/Tests.antt =====
-- The bindings of a file with a struct of one field and a constant.
use Prim.Native.Char.{Char, code}
use Prim.Native.String.{String}
use ncdn.Base.{◌≡◌, refl, none, List, [], ◌∷◌, ◌⊎◌, inl, inr, ◌==◌, if◌then◌else◌, All}
use ncdn.L4lb.GenBindings.{
  CFile, Scan, parse_c_source, parse_lines, parse_line, parse_outside, parse_begin, parse_inside,
  parse_field, parse_c_field, parse_array_size, typed_field, add_directives, go_type, camel_case,
}
use ncdn.L4lb.GenBindings.Template.{
  concat_all, each, try_each, int_text, checked_go_type, const_text, field_text, offset_text,
  add_line, add_text, equals_text, string_text, struct_text, assert_text, file_text, go_template,
}
use ncdn.L4lb.GenBindings.Tests.{scan, lines}
use ncdn.L4lb.GenBindings.Emit.{
  PathLib, Files, not_written, written, assert_layouts_func_name, read_c_source, read_sources,
  emit_bindings_go, run,
}
use ncdn.L4lb.GenBindings.Emit.Written.{AllGoTyped, IsWritten, run-Written}

-- The decimals that the file needs.
abbrev decimals : Scan
decimals = record scan { decimal = λ n. if n == 32 then "32" else if n == 3 then "3" else "1" }

-- The one letter of the names.
abbrev to_upper : Char → Char
to_upper r = if code r == b'x' then "X" else "S"

abbrev paths : PathLib
paths = record {
  base = λ s. "lb.c";
  ext = λ s. ".c";
  trim_suffix = λ s t. "lb";
  replace_all = λ s t u. s;
  title = λ s. "Lb";
}

abbrev disk : Files
disk = record { open_file = λ s. inl (lines, none); write_file = λ s t. none; exec_error = λ e. e }

bindings :
    run decimals to_upper paths disk ("../c/lb.c" ∷ [])
    ≡ written (
        concat_all (
          "package l4lbdrv\n"
          ∷ "// This file is auto generated by gen_bindings.go. Do not modify.\n\nimport (\n"
          ∷ "\t\"bytes\"\n\t\"fmt\"\n\t\"strings\"\n\t\"unsafe\"\n)\n\n\n"
          ∷ "// Source: ../c/lb.c\n\nconst (\n\nN = 3 // ../c/lb.c:1\n)\n\n\n\n"
          ∷ "type S struct { // ../c/lb.c:1\n\tX uint32 // ../c/lb.c:3\n}\n\n"
          ∷ "func SAssertLayout(s *DWARFStruct) error {\n\tif s == nil {\n"
          ∷ "\t\treturn fmt.Errorf(\"DWARFStruct is nil\")\n\t}\n\n"
          ∷ "\tgosize := unsafe.Sizeof(S{})\n\tif gosize != uintptr(s.Size) {\n"
          ∷ "\t\treturn fmt.Errorf(\"size mismatch: go: %d, dwarf: %d\", gosize, s.Size)\n"
          ∷ "\t}\n\n\tfs := s.Fields\n\n\tvar goff uintptr\n\tvar doff int64\n"
          ∷ "\tgoff = unsafe.Offsetof(S{}.X)\n\tdoff = fs[\"x\"].Offset\n"
          ∷ "\tif goff != uintptr(doff) {\n"
          ∷ "\t\treturn fmt.Errorf(\"offset mismatch: go X: %d, dwarf x: %d\", goff, doff)\n"
          ∷ "\t}\n\n\treturn nil\n}\n\nfunc (c *S) Add(other *S) {\n\tc.X += other.X\n}\n\n\n"
          ∷ "\n\n\nfunc LbAssertLayout(m map[string]*DWARFStruct) error {\n"
          ∷ "\tif err := SAssertLayout(m[\"s\"]); err != nil {\n"
          ∷ "\t\treturn fmt.Errorf(\"s: %v\", err)\n\t}\n\treturn nil\n}\n\n" ∷ []))
unfolding run emit_bindings_go read_sources read_c_source parse_c_source parse_lines parse_line
    parse_outside parse_begin parse_inside parse_field parse_c_field parse_array_size typed_field
    add_directives go_type camel_case concat_all each try_each int_text checked_go_type const_text
    field_text offset_text add_line add_text equals_text string_text struct_text assert_text
    file_text go_template assert_layouts_func_name
bindings = refl

run-Written_example :
    ((e : String) × (read_sources decimals to_upper paths disk ("../c/lb.c" ∷ []) ≡ inr e)
      × (run decimals to_upper paths disk ("../c/lb.c" ∷ []) ≡ not_written e))
    ⊎ ((cs : List CFile) × (t : String) × (read_sources decimals to_upper paths disk
            ("../c/lb.c" ∷ [])
          ≡ inl cs)
        × All (AllGoTyped decimals.decimal) cs
        × IsWritten decimals to_upper paths disk ("../c/lb.c" ∷ []) cs t)
run-Written_example = run-Written decimals to_upper paths disk ("../c/lb.c" ∷ [])
