-- ===== src/Gslb/Setup/Total.antt =====
-- Fuel for two more steps than there are tokens is enough for `setup`.
use Prim.Native.String.{String}
use text.Mathlib.Text.{◌==◌ as str_eq}
use ncdn.Base.{
  ℕ, zero, suc, ◌+◌, ◌<◌, ◌≡◌, refl, arith, Bool-cases, ◌⊎◌, Option-cases, List, [], ◌∷◌, inl, inr,
}
use ncdn.Netip.{Addr}
use ncdn.Gslb.Core.{Config}
use ncdn.Gslb.Setup.Cursor.{
  Consumes, Below, PropertyBelow, Below-weaken, Below-bind, argument-bind, brace-bind,
  each_arg-Below, properties-Below,
}
use ncdn.Gslb.Setup.{
  Controller, Parsers, Result, done, failed, out_of_fuel, bind, argument, brace, properties,
  set_ip4, add_prefix, pop_property, region_property, Settings, new_pop, new_region, add_pop,
  add_region, pop_block, region_block, setting, block, blocks, no_settings, setup,
}

module _ (c : Controller) (l : Consumes c) (p : Parsers) where
  open c use {Cursor, next, next_arg, next_block, val}
  open l use {left}

  setting_of_argument :
      {A : Type 0} (s : Cursor) (f : String → A)
      → Below c l (left s) (bind (argument c s) (λ r. done (r.0, f r.1)))
  setting_of_argument s f = argument-bind c l s (λ r. done (r.0, f r.1)) (λ t fewer. fewer)

  pop_property-Below : PropertyBelow c l (pop_property c p)
  unfolding pop_property
  pop_property-Below key fuel s pop lt = elim (Bool-cases (str_eq key "ip4")) [
    | inl ip4 ↦
        rw (ip4, pop_property) (each_arg-Below c l (set_ip4 c p p.parse_addr) "ip4" fuel s pop lt)
    | inr e1 ↦ elim (Bool-cases (str_eq key "ip4_lookup")) [
      | inl lookup ↦
          rw (e1, lookup, pop_property)
            (each_arg-Below c l (set_ip4 c p p.resolve) "ip4_lookup" fuel s pop lt)
      | inr e2 ↦ elim (Bool-cases (str_eq key "latency_endpoint_url")) [
        | inl url ↦
            rw (e1, e2, url, pop_property)
              (Below-weaken c l (left s) (left s + 1) _ (omega arith)
                (setting_of_argument s (λ v. record pop { latency_endpoint_url = v })))
        | inr e3 ↦ elim (Bool-cases (str_eq key "ui_popup_css")) [
          | inl css ↦
              rw (e1, e2, e3, css, pop_property)
                (Below-weaken c l (left s) (left s + 1) _ (omega arith)
                  (setting_of_argument s (λ v. record pop { ui_popup_css = v })))
          | inr e4 ↦ rw (e1, e2, e3, e4, pop_property) tt
        ]
      ]
    ]
  ]

  region_property-Below : PropertyBelow c l (region_property c p)
  unfolding region_property
  region_property-Below key fuel s r lt = elim (Bool-cases (str_eq key "prefixes")) [
    | inl prefixes ↦
        rw (prefixes, region_property) (each_arg-Below c l (add_prefix c p) "prefix" fuel s r lt)
    | inr e1 ↦ elim (Bool-cases (str_eq key "prefices")) [
      | inl prefices ↦
          rw (e1, prefices, region_property)
            (each_arg-Below c l (add_prefix c p) "prefix" fuel s r lt)
      | inr e2 ↦ elim (Bool-cases (str_eq key "prober_url")) [
        | inl url ↦
            rw (e1, e2, url, region_property)
              (Below-weaken c l (left s) (left s + 1) _ (omega arith)
                (setting_of_argument s (λ v. record r { prober_url = v })))
        | inr e3 ↦ elim (Bool-cases (str_eq key "ui_popup_css")) [
          | inl css ↦
              rw (e1, e2, e3, css, region_property)
                (Below-weaken c l (left s) (left s + 1) _ (omega arith)
                  (setting_of_argument s (λ v. record r { ui_popup_css = v })))
          | inr e4 ↦ rw (e1, e2, e3, e4, region_property) tt
        ]
      ]
    ]
  ]

  -- A block of properties after its name.
  properties_after_name :
      {A : Type 0} (what : String) (property : String → ℕ → Cursor → A → Result (Cursor × A))
      (start : String → A) (put : A → Settings c p) (fuel : ℕ) (s : Cursor)
      → PropertyBelow c l property
      → left s < fuel
      → Below c l (left s) (
          bind (argument c s) (λ id. bind (brace c what id.0) (λ open_at.
            bind (properties c property fuel open_at (start id.1)) (λ r. done (r.0, put r.1)))))
  properties_after_name what property start put fuel s good lt = argument-bind c l s _ (λ id fewer.
      brace-bind c l what (left s) id.0 _ (λ open_at less.
        Below-bind c l (left open_at + 1) (left s) _ (λ r. done (r.0, put r.1))
          (properties-Below c l property good fuel open_at (start id.1) (omega arith))
          (λ t few. omega arith)))

  setting-Below :
      (key : String) (fuel : ℕ) (s : Cursor) (t : Settings c p)
      → left s < fuel
      → Below c l (left s) (setting c p key fuel s t)
  unfolding setting pop_block region_block
  setting-Below key fuel s t lt = elim (Bool-cases (str_eq key "http_server")) [
    | inl server ↦
        rw (server, setting)
          (setting_of_argument s (λ v. record t { ccfg = record t.ccfg { http_server = v } }))
    | inr e1 ↦ elim (Bool-cases (str_eq key "prober_secret")) [
      | inl secret ↦
          rw (e1, secret, setting)
            (setting_of_argument s (λ v. record t { ccfg = record t.ccfg { prober_secret = v } }))
      | inr e2 ↦ elim (Bool-cases (str_eq key "pop")) [
        | inl pop ↦
            rw (e1, e2, pop, setting)
              (properties_after_name "Expected '{' after pop id" (pop_property c p) (new_pop c p)
                (add_pop c p t) fuel s pop_property-Below lt)
        | inr e3 ↦ elim (Bool-cases (str_eq key "region")) [
          | inl region ↦
              rw (e1, e2, e3, region, setting)
                (properties_after_name "Expected '{' after region id" (region_property c p)
                  (new_region c p) (add_region c p t) fuel s region_property-Below lt)
          | inr e4 ↦ elim (Bool-cases (str_eq key "ns_a_addr")) [
            | inl ns ↦
                rw (e1, e2, e3, e4, ns, setting)
                  (argument-bind c l s _ (λ a fewer. elim (Option-cases (p.parse_ip a.1)) [
                    | inl bad ↦ rw bad tt
                    | inr (ip, good) ↦ rw good fewer
                  ]))
            | inr e5 ↦ rw (e1, e2, e3, e4, e5, setting) tt
          ]
        ]
      ]
    ]
  ]

  block-Below :
      (fuel : ℕ) (s : Cursor) (t : Settings c p)
      → left s + 1 < fuel
      → Below c l (left s + 1) (block c p fuel s t)
  unfolding block
  block-Below zero s t lt = absurd (omega arith)
  block-Below (suc fuel) s t lt =
      let kept = l.next_block_le s in
      elim (Bool-cases (next_block s).1) [
        | inl more ↦
            rw (more, block)
              (Below-bind c l (left (next_block s).0) (left s + 1) _ _
                (setting-Below (val (next_block s).0) fuel (next_block s).0 t (omega arith))
                (λ r fewer.
                  Below-weaken c l (left r.0 + 1) (left s + 1) _ (omega arith)
                    (block-Below fuel r.0 r.1 (omega arith))))
        | inr stop ↦ rw (stop, block) (omega arith)
      ]

  -- A result that did not meet its fuel.
  abbrev Ends : {A : Type 0} → Result A → Type 0
  Ends (done _) = Unit {0}
  Ends (failed _) = Unit {0}
  Ends out_of_fuel = ⊥

  Ends-bind :
      {A B : Type 0} (n : ℕ) (r : Result (Cursor × A)) (k : Cursor × A → Result B)
      → Below c l n r
      → ((t : Cursor × A) → left t.0 < n → Ends (k t))
      → Ends (bind r k)
  unfolding bind
  Ends-bind n (done t) k h rest = rest t h
  Ends-bind n (failed e) k h rest = tt
  Ends-bind n out_of_fuel k h rest = absurd h

  blocks-Ends :
      (fuel : ℕ) (s : Cursor) (t : Settings c p) → left s + 1 < fuel → Ends (blocks c p fuel s t)
  unfolding blocks
  blocks-Ends zero s t lt = absurd (omega arith)
  blocks-Ends (suc fuel) s t lt = elim (Bool-cases (next s).1) [
    | inl more ↦
        let shorter = l.next_lt s more in
        rw (more, blocks)
          (Ends-bind (left (next s).0 + 1) _ _ (block-Below fuel (next s).0 t (omega arith))
            (λ r fewer. blocks-Ends fuel r.0 r.1 (omega arith)))
    | inr stop ↦ rw (stop, blocks) tt
  ]

  Ends-cases :
      {A : Type 0} (r : Result A)
      → Ends r
      → ((a : A) × (r ≡ done a)) ⊎ ((e : String) × (r ≡ failed e))
  Ends-cases (done a) h = inl (a, refl)
  Ends-cases (failed e) h = inr (e, refl)
  Ends-cases out_of_fuel h = absurd h

  -- With fuel for two more steps than there are tokens, over a controller whose `Next` and `NextArg`
  -- take a token when they return true, `setup` ends. What it accepts has one zone, and an address of
  -- the name server.
  pub setup-total :
      (fuel : ℕ) (origins : List String) (s : Cursor)
      → left s + 1 < fuel
      → ((zone : String) × (cfg : Config) × (ip : Addr) × (origins ≡ zone ∷ [])
          × (setup c p fuel origins s ≡ done (zone, cfg, ip)))
        ⊎ ((e : String) × (setup c p fuel origins s ≡ failed e))
  unfolding setup bind
  setup-total fuel [] s lt = inr (_, refl)
  setup-total fuel (_ ∷ _ ∷ _) s lt = inr (_, refl)
  setup-total fuel (zone ∷ []) s lt =
      elim (Ends-cases (blocks c p fuel s (no_settings c p))
        (blocks-Ends fuel s (no_settings c p) lt)) [
          | inr (e, wrong) ↦ inr (e, rw (wrong, setup, bind) refl)
          | inl (t, read) ↦ elim (Option-cases t.ns_a) [
            | inl missing ↦ inr ("ns_a_addr is required.", rw (read, missing, setup, bind) refl)
            | inr (ip, given) ↦ inl (zone, t.ccfg, ip, refl, rw (read, given, setup, bind) refl)
          ]
        ]
