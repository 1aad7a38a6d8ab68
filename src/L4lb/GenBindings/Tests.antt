-- ===== src/L4lb/GenBindings/Tests.antt =====
-- The parser on a file of two lines of struct and a constant.
use Prim.Native.String.{String}
use text.Mathlib.Text.{◌==◌ as str_eq}
use ncdn.Base.{◌≡◌, refl, true, false, none, some, List, [], ◌∷◌, inl, if◌then◌else◌}
use ncdn.Base.Int.{pos}
use ncdn.L4lb.GenBindings.{
  Scan, CStruct, CConst, CField, parse_c_source, parse_c_field, parse_array_size, typed_field,
  add_directives,
}
use ncdn.L4lb.GenBindings.Grammar.{
  close, comment, field, Lines, done, const, struct, file_of, parse_c_source-Lines,
}

-- The expressions on the lines of the test.
abbrev pub scan : Scan
scan = record {
  define_const = λ l. if str_eq l "#define N 3 // go:" then some ("N", "3") else none;
  struct_begin = λ l. if str_eq l "struct s { // go:Add" then some ("s", "Add") else none;
  struct_field = λ l. if str_eq l "uint32_t x;" then some ("uint32_t", "x", "", "") else none;
  struct_end = λ l. str_eq l "};";
  atoi = λ d. inl (pos 3);
  split = λ d. d ∷ [];
  decimal = λ n. "1";
}

abbrev pub lines : List String
lines = "struct s { // go:Add" ∷ "// of x" ∷ "uint32_t x;" ∷ "};" ∷ "#define N 3 // go:" ∷ []

abbrev x_field : CField
x_field = record { name = "x"; type = "uint"; size = 4; array_size = pos 0; source_line = "lb.c:1" }

abbrev pub s_struct : CStruct
s_struct = record {
  name = "s";
  fields = x_field ∷ [];
  source_line = "lb.c:1";
  derive_add = true;
  derive_equals = false;
  derive_string = false;
}

abbrev pub n_const : CConst
n_const = record { name = "N"; value = pos 3; source_line = "lb.c:1" }

lines-Lines : Lines scan "lb.c" 0 lines (s_struct ∷ []) (n_const ∷ [])
unfolding add_directives parse_c_field parse_array_size typed_field
lines-Lines =
    struct {name = "s"} {directives = "Add"} refl refl refl
      (comment refl refl (
        field {typ = "uint32_t"} {name = "x"} {array_size = ""} {help = ""} refl refl refl
          (close refl)))
      (const {name = "N"} {digits = "3"} refl refl done)

parse_c_source-Lines_example :
    parse_c_source scan "lb.c" lines none ≡ inl (file_of "lb.c" (s_struct ∷ []) (n_const ∷ []))
parse_c_source-Lines_example =
    parse_c_source-Lines scan "lb.c" lines (s_struct ∷ []) (n_const ∷ []) lines-Lines
