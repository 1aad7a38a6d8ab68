-- ===== src/L4lb/Bind.antt =====
-- Calls of the driver on the outside: `BindBalancer` of l4lb/l4lbdrv/bindings.go, and `HealthCheck`
-- of drv.go. The loader of cilium/ebpf and the HTTP client are parameters.
pub mod Layout
use Prim.Native.String.{String}
use text.Mathlib.Text.{◌==◌ as str_eq}
use ncdn.Base.{
  ℕ, zero, suc, Bool, true, false, Option, none, some, List, [], ◌∷◌, ◌⊎◌, inl, inr, replicate,
  ◌==◌, if◌then◌else◌,
}
use ncdn.Netip.{Addr}
use ncdn.L4lb.Driver.{DestinationEntry}
use ncdn.L4lb.GenBindings.{concat}
use ncdn.L4lb.Dwarf.{Dwarf, Elf, read_dwarf_structs, lb_assert_layout}

-- The calls of os and cilium/ebpf: `B` is what is loaded, and a text is an error.
pub record Loader (B : Type 0) : Type 0 where
  pub open_error : Option String
  pub spec_error : Option String
  pub load_and_assign : B ⊎ String
  pub pin : B → String → Option String

-- The end of `BindBalancer`: the hook is pinned where there is a path for it.
unfoldable pub pin_hook : {B : Type 0} → Loader B → String → B → B ⊎ String
pin_hook l hook_path b = if str_eq hook_path "" then inl b else elim (l.pin b hook_path) [
  | some e ↦ inr (concat "Failed to pin XdpcapHook: " e)
  | none ↦ inl b
]

-- `BindBalancer` after the assertions.
unfoldable pub load : {B : Type 0} → Loader B → String → B ⊎ String
load l hook_path = elim l.open_error [
  | some e ↦ inr (concat "Failed to open balancer bin: " e)
  | none ↦ elim l.spec_error [
    | some e ↦ inr (concat "Failed to read spec: " e)
    | none ↦ elim l.load_and_assign [
      | inr e ↦ inr (concat "Failed to bind spec: " e)
      | inl b ↦ pin_hook l hook_path b
    ]
  ]
]

-- `BindBalancer`
unfoldable pub bind_balancer : {B : Type 0} → Dwarf → Elf ⊎ String → Loader B → String → B ⊎ String
bind_balancer d bin l hook_path = elim (read_dwarf_structs d bin) [
  | inr e ↦ inr (concat "ReadDWARFStructs: " e)
  | inl m ↦ elim (lb_assert_layout m) [
    | some e ↦ inr (concat "Htdilb2AssertLayout: " e)
    | none ↦ load l hook_path
  ]
]

-- `HealthCheck`, for the status that the client gets, or its error.
unfoldable pub health_check :
    (String → ℕ ⊎ String) → (Addr → String) → String → DestinationEntry → Bool
health_check http_get addr_text endpoint dest =
    elim (http_get (concat "http://" (concat (addr_text dest.ip_addr) endpoint))) [
      | inr e ↦ false
      | inl status ↦ status == 200
    ]

-- The health checks of a round, in the order of the destinations from `i` on.
unfoldable pub health_answers :
    (DestinationEntry → Bool) → ℕ → List DestinationEntry → List (ℕ × Bool)
health_answers check i [] = []
health_answers check i (dest ∷ dests) = (i, check dest) ∷ health_answers check (suc i) dests
