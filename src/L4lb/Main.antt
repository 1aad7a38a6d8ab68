-- ===== src/L4lb/Main.antt =====
-- The command l4lb/cmd/main.go: from its destinations to its end, over the calls of the driver that
-- touch the system (drv.go, bindings.go): the limit on locked memory, attaching, the counters in the log,
-- and the closing. A signal is an event, as a tick is. The file names are left out.
pub mod Serves
use Prim.Native.String.{String}
use text.Mathlib.Text.{◌==◌ as str_eq}
use mathlib.Core.Option
use ncdn.Base.{
  ℕ, ◌+◌, ◌-◌, ◌*◌, ◌%◌, ◌^◌, Bool, Option, none, some, List, [], ◌∷◌, ◌++◌, ◌⊎◌, inl, inr,
  replicate, map, if◌then◌else◌,
}
use ncdn.Base.Int.{ℤ}
use ncdn.Netip.{Addr}
use ncdn.L4lb.Bindings.{concat, StatCounters, read_stat_counters_aggregate, to_string}
use ncdn.L4lb.Cmd.{Parsed, dests, invalid_entry, not_ipv4, invalid_mac, panic}
use ncdn.L4lb.Driver.{Ebpf, L4lb, Error, Config, DestinationEntry, tick, new}
use ncdn.L4lb.Link
use ncdn.L4lb.Link.{Netlink, LinkAttacher, attach_to_link, close_done, detach, forget}

-- The errors of the calls that limit locked memory, for the limits that are set.
pub record Rlimits : Type 0 where
  pub get_error : Option String
  pub set_error : ℕ → ℕ → Option String

-- `PrepSystemForXDP`
unfoldable pub prep_system_for_xdp : Rlimits → Option String
prep_system_for_xdp r = elim r.get_error [
  | some e ↦ some (concat "Failed to Getrlimit(RLIMIT_MEMLOCK): " e)
  | none ↦ elim (r.set_error (2 ^ 64 - 1) (2 ^ 64 - 1)) [
    | some e ↦ some (concat "Failed to Setrlimit(RLIMIT_MEMLOCK): " e)
    | none ↦ none
  ]
]

-- The part of `New` that finds the interface and attaches to it, with the error of finding it.
unfoldable pub attach :
    Netlink → ℕ → ℤ → Option ℤ → String → Option String → Option LinkAttacher ⊎ String
attach nl n fd prog interface link_error =
    if str_eq interface "" then inl none else elim link_error [
      | some e ↦ inr (concat "Failed to find interface: " e)
      | none ↦ elim (attach_to_link nl n fd prog) [ inl a ↦ inl (some a) | inr e ↦ inr e ]
    ]

-- The errors of closing the maps of `Bindings`.
pub record Handles : Type 0 where
  pub stat_counters_map : Option String
  pub xdpcap_hook : Option String
  pub destination_array : Option String
  pub config_map : Option String
  pub maglev_lookup_table : Option String

-- `Close` of the bindings; `combine` is that of multierr.
unfoldable pub close_bindings : (List (Option String) → Option String) → Handles → Option String
close_bindings combine h = combine (
    h.stat_counters_map ∷ h.xdpcap_hook ∷ h.destination_array ∷ h.config_map ∷ h.maglev_lookup_table
    ∷ [])

-- `Close` of the link with nothing between its parts; `none` is a panic.
unfoldable pub close_link : Netlink → ℕ → LinkAttacher → Option (LinkAttacher × Option String)
close_link nl n a = elim a.has_link [
  | Bool.false ↦ some (a, none)
  | Bool.true ↦ elim (close_done a) [
    | none ↦ none
    | some closing ↦
        let called = detach nl n closing in
        elim called.1 [ some e ↦ some (called.0, some e) | none ↦ some (forget called.0, none) ]
  ]
]

-- `Close` of the driver, with the link after it; `none` is a panic, that of a nil link included.
unfoldable pub close :
    (List (Option String) → Option String)
    → Netlink
    → ℕ
    → Handles
    → Option LinkAttacher
    → Option (LinkAttacher × Option String)
unfolding close_link
close combine nl n h none = none
close combine nl n h (some a) = elim (close_link nl n a) [
  | none ↦ none
  | some (a', some e) ↦ some (a', some e)
  | some (a', none) ↦ some (a', close_bindings combine h)
]

-- `ResetStatCounters`: 72 zero bytes for each CPU are put under the key 0.
unfoldable pub reset_stat_counters :
    {M : Type 0} → (M → ℕ → List (List ℕ) → M × Option String) → ℕ → M → M × Option String
reset_stat_counters put ncpus m =
    let done = put m 0 (replicate ncpus (replicate 72 0)) in
    (done.0, Option.map (concat "StatCountersMap.Put: ") done.1)

-- `NowNanoseconds`, from the seconds and nanoseconds of the clock.
unfoldable pub now_nanoseconds : ℕ → ℕ → ℕ
now_nanoseconds sec nsec = (1000 * 1000 * 1000 * sec + nsec) % 2 ^ 64

-- `DumpCounters`, with what it writes to the log, or its error.
unfoldable pub dump_counters : (ℕ → String) → List StatCounters ⊎ String → String ⊎ String
dump_counters decimal read = elim (read_stat_counters_aggregate read) [
  | inl cnt ↦ inl (to_string decimal cnt)
  | inr e ↦ inr e
]

-- What wakes the loop: a tick, with the counters and the answers to the health checks, or a signal.
pub data Event : Type 0 where
  on_tick : List StatCounters ⊎ String → List (ℕ × Bool) → Event
  on_signal : Event

abbrev pub dump_line : String ⊎ String → String
dump_line (inl line) = line
dump_line (inr e) = concat "Failed to dump counters: " e

abbrev pub populate_lines : Option Error → List String
populate_lines none = []
populate_lines (some _) = "Failed to do healthcheck" ∷ []

module _ (e : Ebpf) where
  -- How far the command came: a panic, with an error of `New` or without, or the driver at the end.
  pub data Ended : Type 0 where
    panicked : Ended
    not_started : Error → Ended
    ran : L4lb e → List String → Ended

-- The destinations that `main` goes on with: it only logs an error of `parseDest`.
unfoldable pub dests_of : Parsed → Option (List DestinationEntry)
dests_of (dests es) = some es
dests_of (invalid_entry _) = some []
dests_of (not_ipv4 _) = some []
dests_of (invalid_mac _) = some []
dests_of panic = none

module _ (e : Ebpf) (hash : Addr → ℕ) (decimal : ℕ → String) where
  -- The loop, with the lines of its log; `none` would be a tick that does not end.
  unfoldable pub run : L4lb e → List Event → Option (L4lb e × List String)
  run lb [] = some (lb, [])
  run lb (on_signal ∷ events) = some (lb, [])
  run lb (on_tick read answers ∷ events) = elim (tick e hash lb answers) [
    | none ↦ none
    | some (lb', err) ↦ elim (run lb' events) [
      | none ↦ none
      | some (lb'', lines) ↦
          some (lb'', dump_line (dump_counters decimal read) ∷ populate_lines err ++ lines)
    ]
  ]

  -- `main` up to the deferred `Close`.
  unfoldable pub l4lb_main :
      Parsed → Option Addr → e.Maps ⊎ String → Option String → List Event → Option (Ended e)
  unfolding run dests_of
  l4lb_main parsed vip bound attached events = elim (dests_of parsed) [
    | none ↦ some panicked
    | some es ↦ elim vip [
      | none ↦ some panicked
      | some ip ↦ elim (new e hash (record { vip = ip; dests = es }) bound attached) [
        | none ↦ none
        | some (inr err) ↦ some (not_started err)
        | some (inl lb) ↦ elim (run lb events) [
          | none ↦ none
          | some (lb', lines) ↦ some (ran lb' lines)
        ]
      ]
    ]
  ]
