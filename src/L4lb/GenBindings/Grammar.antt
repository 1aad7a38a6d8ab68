-- ===== src/L4lb/GenBindings/Grammar.antt =====
-- The annotated files that the parser reads, as a grammar of lines.
use Prim.Native.String.{String}
use ncdn.Base.{
  ℕ, suc, ◌≡◌, refl, ap, sym, ◌∙◌, true, false, none, some, List, [], ◌∷◌, ◌++◌, ◌⊎◌, inl,
}
use mathlib.Core.List.{append-nil, append_assoc}
use ncdn.Base.Int.{ℤ}
use ncdn.L4lb.GenBindings.{
  CField, CStruct, CConst, CFile, no_extract, in_struct, Scan, Parser, new_struct, parse_c_field,
  add_directives, source_line, parse_begin, parse_outside, parse_field, parse_inside, parse_line,
  parse_lines, parse_c_source,
}

-- The lines of a struct after its first, from line `n` on, its fields, and the line that ends it.
pub data Body (s : Scan) (filename : String) : ℕ → List String → List CField → ℕ → Type 0 where
  close : {n : ℕ} {l : String} → s.struct_end l ≡ true → Body s filename n (l ∷ []) [] (suc n)
  comment :
      {n m : ℕ} {l : String} {ls : List String} {fs : List CField}
      → s.struct_end l ≡ false
      → s.struct_field l ≡ none
      → Body s filename (suc n) ls fs m
      → Body s filename n (l ∷ ls) fs m
  field :
      {n m : ℕ} {l : String} {ls : List String} {f : CField} {fs : List CField}
      {typ name array_size help : String}
      → s.struct_end l ≡ false
      → s.struct_field l ≡ some (typ, name, array_size, help)
      → parse_c_field s typ name array_size (source_line s filename (suc n)) ≡ inl f
      → Body s filename (suc n) ls fs m
      → Body s filename n (l ∷ ls) (f ∷ fs) m

-- The lines of a file after line `n`, with its structs and constants.
pub data Lines (s : Scan) (filename : String)
    : ℕ → List String → List CStruct → List CConst → Type 0 where
  done : {n : ℕ} → Lines s filename n [] [] []
  skip :
      {n : ℕ} {l : String} {ls : List String} {ss : List CStruct} {cs : List CConst}
      → s.define_const l ≡ none
      → s.struct_begin l ≡ none
      → Lines s filename (suc n) ls ss cs
      → Lines s filename n (l ∷ ls) ss cs
  const :
      {n : ℕ} {l : String} {ls : List String} {ss : List CStruct} {cs : List CConst}
      {name digits : String} {value : ℤ}
      → s.define_const l ≡ some (name, digits)
      → s.atoi digits ≡ inl value
      → Lines s filename (suc n) ls ss cs
      → Lines s filename n
          (l ∷ ls)
          ss
          (record { name = name; value = value; source_line = source_line s filename (suc n) } ∷ cs)
  struct :
      {n m : ℕ} {l : String} {body ls : List String} {fs : List CField} {ss : List CStruct}
      {cs : List CConst} {name directives : String} {c : CStruct}
      → s.define_const l ≡ none
      → s.struct_begin l ≡ some (name, directives)
      → add_directives (new_struct name (source_line s filename (suc n))) (s.split directives)
        ≡ inl c
      → Body s filename (suc n) body fs m
      → Lines s filename m ls ss cs
      → Lines s filename n (l ∷ (body ++ ls)) (record c { fields = c.fields ++ fs } ∷ ss) cs

abbrev pub file_of : String → List CStruct → List CConst → CFile
file_of filename ss cs = record { filename = filename; c_structs = ss; c_consts = cs }

abbrev inside : CFile → ℕ → CStruct → Parser
inside file n c = record {
  parsed = file;
  state = in_struct;
  source_line_num = n;
  current_struct = c;
}

abbrev outside : CFile → ℕ → Parser
outside file n = record {
  parsed = file;
  state = no_extract;
  source_line_num = n;
  current_struct = new_struct "" "";
}

abbrev with_fields : CStruct → List CField → CStruct
with_fields c fs = record c { fields = fs }

-- The parser has ended outside of a struct, with this file.
abbrev Parsed : Parser ⊎ String → CFile → Type 0
Parsed result file = (p : Parser) × (result ≡ inl p) × (p.parsed ≡ file)

module _ (s : Scan) (filename : String) where
  parse_lines-Body :
      {n m : ℕ} {body : List String} {fs : List CField} (ss : List CStruct) (cs : List CConst)
      (c : CStruct) (ls : List String)
      → Body s filename n body fs m
      → parse_lines s (inside (file_of filename ss cs) n c) (body ++ ls)
        ≡ parse_lines s
            (outside (file_of filename (ss ++ (with_fields c (c.fields ++ fs) ∷ [])) cs) m)
            ls
  unfolding parse_lines parse_line parse_inside parse_field
  parse_lines-Body ss cs c ls (close {n} ends) =
      rw (ends, parse_lines, parse_line, parse_inside)
        (ap
          (λ fs.
            parse_lines s (outside (file_of filename (ss ++ (with_fields c fs ∷ [])) cs) (suc n))
              ls)
          (sym (append-nil c.fields)))
  parse_lines-Body ss cs c ls (comment on blank rest) =
      rw (on, blank, parse_lines, parse_line, parse_inside, parse_field)
        (parse_lines-Body ss cs c ls rest)
  parse_lines-Body ss cs c ls (field {m = m} {f = f} {fs = fs} on match made rest) =
      rw (on, match, made, parse_lines, parse_line, parse_inside, parse_field)
        (parse_lines-Body ss cs (with_fields c (c.fields ++ (f ∷ []))) ls rest
          ∙ ap
              (λ gs.
                parse_lines s (outside (file_of filename (ss ++ (with_fields c gs ∷ [])) cs) m) ls)
              (append_assoc c.fields (f ∷ []) fs))

  parse_lines-Lines :
      {n : ℕ} {ls : List String} {ss : List CStruct} {cs : List CConst} (before : List CStruct)
      (consts : List CConst)
      → Lines s filename n ls ss cs
      → Parsed
          (parse_lines s (outside (file_of filename before consts) n) ls)
          (file_of filename (before ++ ss) (consts ++ cs))
  unfolding parse_lines parse_line parse_outside parse_begin
  parse_lines-Lines before consts done = (_, refl, cc (append-nil before, append-nil consts))
  parse_lines-Lines before consts (skip plain none_begun rest) =
      rw (plain, none_begun, parse_lines, parse_line, parse_outside, parse_begin)
        (parse_lines-Lines before consts rest)
  parse_lines-Lines before consts
        (const {n} {cs = cs} {name = name} {value = value} defined parsed rest) =
      let c : CConst = record {
        name = name;
        value = value;
        source_line = source_line s filename (suc n);
      } in
      let (p, made, same) = parse_lines-Lines before (consts ++ (c ∷ [])) rest in
      rw (defined, parsed, parse_lines, parse_line, parse_outside)
        (p, made, cc (same, append_assoc consts (c ∷ []) cs))
  parse_lines-Lines before consts
        (struct {ls = ls} {fs = fs} {ss = ss} {c = c} plain begun derived body rest) =
      let c' = with_fields c (c.fields ++ fs) in
      let (p, made, same) = parse_lines-Lines (before ++ (c' ∷ [])) consts rest in
      rw (plain, begun, derived, parse_lines, parse_line, parse_outside, parse_begin)
        (
          p,
          parse_lines-Body before consts c ls body ∙ made,
          cc (same, append_assoc before (c' ∷ []) ss),
        )

  -- A file that is read whole, whose lines are by the grammar those of structs and constants, is parsed
  -- to just these, in their order, each with its fields, derivations and line.
  pub parse_c_source-Lines :
      (ls : List String) (ss : List CStruct) (cs : List CConst)
      → Lines s filename 0 ls ss cs
      → parse_c_source s filename ls none ≡ inl (file_of filename ss cs)
  unfolding parse_c_source
  parse_c_source-Lines ls ss cs h =
      let (p, made, same) = parse_lines-Lines [] [] h in rw (made, parse_c_source) (ap inl same)
