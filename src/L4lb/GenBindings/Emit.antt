-- ===== src/L4lb/GenBindings/Emit.antt =====
-- `emitBindingsGo` and `run` of l4lb/l4lbdrv/gen_bindings.go. The files, the library's template and
-- its functions on texts and paths are parameters.
mod Typed
pub mod Written
mod Tests
use Prim.Native.Char.{Char}
use Prim.Native.String.{String}
use ncdn.Base.{Option, none, some, List, [], ◌∷◌, ◌⊎◌, inl, inr}
use ncdn.L4lb.GenBindings.{concat, CFile, Scan, parse_c_source}
use ncdn.L4lb.GenBindings.Template.{go_template}

-- `path.Base`, `path.Ext`, `strings.TrimSuffix`, `strings.ReplaceAll` and `strings.Title`.
pub record PathLib : Type 0 where
  pub base : String → String
  pub ext : String → String
  pub trim_suffix : String → String → String
  pub replace_all : String → String → String → String
  pub title : String → String

-- `os.Open` with the lines of the file that the scanner gives and its error at the end; the error of
-- `os.WriteFile`, if there is one; the error of the template for a function of it that panics.
pub record Files : Type 0 where
  pub open_file : String → (List String × Option String) ⊎ String
  pub write_file : String → String → Option String
  pub exec_error : String → String

-- How a run ends: with an error, which is logged, before a file is written or in its writing; or with
-- the text that it has written.
pub data Outcome : Type 0 where
  not_written : String → Outcome
  write_failed : String → Outcome
  written : String → Outcome

-- `assertLayoutsFuncName`
unfoldable pub assert_layouts_func_name : PathLib → String → String
assert_layouts_func_name p filename =
    let basename = p.base filename in
    let prefix = p.trim_suffix basename (p.ext basename) in
    concat (p.title (p.replace_all prefix "-" "")) "AssertLayout"

abbrev pub go_target_filename : String
go_target_filename = "bindings_generated.go"

abbrev pub source_files : List String
source_files = "../c/lb.c" ∷ []

-- An error of `emitBindingsGo`, as `run` returns it.
abbrev pub failed_to_emit : String → String
failed_to_emit e = concat "Failed to emit " (concat go_target_filename (concat ": " e))

-- An error of `parseCSource`, as `run` returns it.
abbrev pub failed_to_parse : String → String → String
failed_to_parse filename e = concat "Failed to parse " (concat filename (concat ": " e))

module _ (s : Scan) (to_upper : Char → Char) (p : PathLib) (f : Files) where
  -- `parseCSource` from the opening of the file on.
  unfoldable pub read_c_source : String → CFile ⊎ String
  read_c_source filename = elim (f.open_file filename) [
    | inr e ↦ inr e
    | inl (lines, error) ↦ parse_c_source s filename lines error
  ]

  -- The loop over the source files.
  unfoldable pub read_sources : List String → List CFile ⊎ String
  read_sources [] = inl []
  read_sources (filename ∷ rest) = elim (read_c_source filename) [
    | inr e ↦ inr (failed_to_parse filename e)
    | inl c ↦ elim (read_sources rest) [ inr e ↦ inr e | inl cs ↦ inl (c ∷ cs) ]
  ]

  -- `emitBindingsGo`
  unfoldable pub emit_bindings_go : List CFile → Outcome
  emit_bindings_go cs = elim (go_template s.decimal to_upper (assert_layouts_func_name p) cs) [
    | inr e ↦ not_written (failed_to_emit (f.exec_error e))
    | inl t ↦ elim (f.write_file go_target_filename t) [
      | some e ↦ write_failed (failed_to_emit e)
      | none ↦ written t
    ]
  ]

  -- `run`
  unfoldable pub run : List String → Outcome
  run filenames = elim (read_sources filenames) [
    | inr e ↦ not_written e
    | inl cs ↦ emit_bindings_go cs
  ]
