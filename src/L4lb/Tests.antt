-- ===== src/L4lb/Tests.antt =====
-- Runs of the driver of l4lb on small inputs, and its theorems at concrete ones.
use Prim.Native.String.{String}
use mathlib.Core.Option
use ncdn.Base.{
  ℕ, zero, suc, ◌≡◌, refl, sym, ap, ◌∙◌, Bool, true, false, Option, none, some, List, [], ◌∷◌,
  arith, ◌==◌, if◌then◌else◌, get_or, inl, inr, ◌++◌, ◌%◌, ◌^◌, length, get_elem?,
}
use ncdn.Base.Int.{pos}
use text.Mathlib.Text.{◌==◌ as str_eq}
use ncdn.Netip.{Addr, v4, as4, bytes4}
use ncdn.L4lb.Bindings.{
  bytes, copy, marshal_binary, StatCounters, zero_counters, read_stat_counters_aggregate,
}
use ncdn.L4lb.Bindings.Layout.{entry_at, marshal_binary-layout}
use ncdn.L4lb.Bindings.Counters.{Counter, counter, sum_of, read_stat_counters_aggregate-sum_of}
use ncdn.L4lb.Cmd.{Parsers, dests, parse_dest}
use ncdn.L4lb.Main.{Event, on_tick, on_signal, Ended, l4lb_main}
use ncdn.L4lb.Main.Serves.{AreRounds, EndsServing, l4lb_main-IsServing}
use ncdn.L4lb.Cmd.Dests.{parse_dest-marshal_binary}
use ncdn.L4lb.Table.{build_table}
use ncdn.L4lb.Table.Balance.{alive}
use ncdn.L4lb.Driver.{
  Ebpf, L4lb, Error, Config, DestinationEntry, check_one, check_all, health_check_all,
  populate_lookup_table, tick, initial,
}
use ncdn.L4lb.Driver.Health.{IsRound, health_check_all-verdict}
use ncdn.L4lb.Driver.Lookup.{IsStore, Spreads, populate_lookup_table-Spreads}
use ncdn.L4lb.Driver.Tick.{InStep, tick-InStep}

-- A table of seven slots, two of three destinations alive.
small_table :
    Option.map
      (λ st. st.table)
      (build_table 7 4
        (false ∷ false ∷ true ∷ false ∷ [])
        (0 ∷ 3 ∷ 0 ∷ 3 ∷ [])
        (1 ∷ 2 ∷ 1 ∷ 3 ∷ []))
    ≡ some (pos 1 ∷ pos 3 ∷ pos 3 ∷ pos 1 ∷ pos 1 ∷ pos 1 ∷ pos 3 ∷ [])
unfolding build_table
small_table = refl

-- One dies, one comes back.
two_answers :
    check_all (false ∷ false ∷ true ∷ [], []) ((2, true) ∷ (1, false) ∷ [])
    ≡ (false ∷ true ∷ false ∷ [], 2 ∷ 1 ∷ [])
unfolding check_all check_one
two_answers = refl

-- The lookup table as a function, and puts that never fail.
abbrev memory : Ebpf
memory = record {
  Maps = ℕ → Option ℕ;
  put = λ ms k v. ((λ j. if k == j then some v else ms j), none);
  slot = λ ms k. ms k;
  put_config = λ ms c. (ms, none);
  put_dests = λ ms keys ds. (ms, none);
}

memory-IsStore : IsStore memory
memory-IsStore = record {
  put_same =
      λ ms ms' k v h. ap (λ (t : (ℕ → Option ℕ) × Option String). t.0 k) (sym h) ∙ (ground arith);
  put_other = λ ms ms' k j v h ne.
      ap (λ (t : (ℕ → Option ℕ) × Option String). t.0 j) (sym h) ∙ (ground arith);
  slot_config = λ ms c k. refl;
  slot_dests = λ ms keys ds k. refl;
}

abbrev hash : Addr → ℕ
hash _ = 0x1234_5678_9abc_def0

abbrev entry : ℕ → DestinationEntry
entry a = record { ip_addr = v4 a; hardware_addr = 0 ∷ 0 ∷ 0x5e ∷ 0 ∷ 0x53 ∷ 1 ∷ [] }

-- The balancer 192.168.88.10 and two cache servers, for 192.0.2.10.
abbrev config : Config
config = record {
  vip = v4 0xc000_020a;
  dests = entry 0xc0a8_580a ∷ entry 0xc0a8_5814 ∷ entry 0xc0a8_5815 ∷ [];
}

abbrev start : L4lb memory
start = initial memory config (λ _. none)

abbrev half : L4lb memory
half = record start { dead_dests = false ∷ true ∷ true ∷ [] }

-- The second server answers with a success, the first does not.
abbrev answers : List (ℕ × Bool)
answers = (2, true) ∷ (1, false) ∷ []

half-InStep : InStep memory half
half-InStep = record { flags = refl; few = omega arith; spread = λ a h. absurd (nobody a h) }
  where
    nobody : (a : ℕ) → alive 3 (false ∷ true ∷ true ∷ []) a ≡ true → ⊥
    nobody zero h = cc
    nobody (suc zero) h = ground arith
    nobody (suc (suc zero)) h = ground arith
    nobody (suc (suc (suc a))) h = ground arith

populate_lookup_table-Spreads_example :
    (lb' : L4lb memory) × (err : Option Error) × (populate_lookup_table memory hash start
      ≡ some (lb', err))
    × (lb'.cfg ≡ config)
    × (lb'.dead_dests ≡ false ∷ false ∷ false ∷ [])
    × (err ≡ none → Spreads memory lb')
populate_lookup_table-Spreads_example =
    populate_lookup_table-Spreads memory memory-IsStore hash start 1 (omega arith) refl

answers-IsRound : IsRound 3 answers
answers-IsRound = (omega arith, omega arith, refl, (omega arith, omega arith, refl, tt))

health_check_all-verdict_example :
    get_or (health_check_all memory half answers).0.dead_dests 2 true ≡ false
health_check_all-verdict_example = health_check_all-verdict memory half answers answers-IsRound 2

tick-InStep_example :
    (lb' : L4lb memory) × (err : Option Error) × (tick memory hash half answers ≡ some (lb', err))
    × (lb'.dead_dests ≡ (health_check_all memory half answers).0.dead_dests)
    × (err ≡ none → InStep memory lb')
tick-InStep_example =
    tick-InStep memory memory-IsStore hash half answers half-InStep answers-IsRound

abbrev marshalled : List ℕ
marshalled = 192 ∷ 168 ∷ 88 ∷ 20 ∷ 0 ∷ 0 ∷ 0x5e ∷ 0 ∷ 0x53 ∷ 1 ∷ []

one_entry : marshal_binary (entry 0xc0a8_5814 ∷ []) ≡ bytes marshalled
unfolding marshal_binary copy as4 bytes4
one_entry = refl

marshal_binary-layout_example :
    (buf : List ℕ) × (marshal_binary config.dests ≡ bytes buf)
    × (length buf ≡ 30)
    × ((i : ℕ) (d : DestinationEntry) (a : ℕ)
        → get_elem? config.dests i ≡ some d
        → d.ip_addr ≡ v4 a
        → entry_at i buf ≡ bytes4 a ++ copy 6 d.hardware_addr)
marshal_binary-layout_example =
    marshal_binary-layout config.dests
      ((0xc0a8_580a, refl), ((0xc0a8_5814, refl), ((0xc0a8_5815, refl), tt)))

abbrev cpu : StatCounters
cpu = record zero_counters { rx_packet_total = 5; no_vip_match_total = 2 }

read_stat_counters_aggregate-sum_of_example :
    (total : StatCounters) × (read_stat_counters_aggregate (inl (cpu ∷ cpu ∷ [])) ≡ inl total)
    × ((f : Counter) → counter f total ≡ sum_of f (cpu ∷ cpu ∷ []) % (2 ^ 64))
read_stat_counters_aggregate-sum_of_example = read_stat_counters_aggregate-sum_of (cpu ∷ cpu ∷ [])

abbrev digit : ℕ → String
digit n = if n == 5 then "5" else "2"

abbrev parsers : Parsers
parsers = record {
  split = λ s by. if str_eq by "," then s ∷ [] else "192.0.2.1" ∷ "00:00:5e:00:53:01" ∷ [];
  parse_addr = λ s. some (v4 0xc000_0201);
  parse_mac = λ s. some (0 ∷ 0 ∷ 0x5e ∷ 0 ∷ 0x53 ∷ 1 ∷ []);
}

one_parsed : parse_dest parsers "192.0.2.1;00:00:5e:00:53:01" ≡ dests (entry 0xc000_0201 ∷ [])
unfolding parse_dest
one_parsed = refl

parse_dest-marshal_binary_example :
    (buf : List ℕ) × (marshal_binary (entry 0xc000_0201 ∷ []) ≡ bytes buf) × (length buf ≡ 10)
parse_dest-marshal_binary_example =
    parse_dest-marshal_binary parsers (λ s e. cc) "192.0.2.1;00:00:5e:00:53:01"
      (entry 0xc000_0201 ∷ []) one_parsed

-- The first server fails, comes back, and the second one fails; then the command is stopped.
abbrev events : List Event
events =
    on_tick (inl (cpu ∷ cpu ∷ [])) ((2, true) ∷ (1, false) ∷ [])
    ∷ on_tick (inr "no such key") ((1, true) ∷ (2, false) ∷ [])
    ∷ on_signal
    ∷ []

events-AreRounds : AreRounds 3 events
events-AreRounds =
    (answers-IsRound, ((omega arith, omega arith, refl, (omega arith, omega arith, refl, tt)), tt))

l4lb_main-IsServing_example :
    (ended : Ended memory) × (l4lb_main memory hash digit
        (dests config.dests)
        (some config.vip)
        (inl (λ _. none))
        none
        events
      ≡ some ended)
    × EndsServing memory config.dests events ended
l4lb_main-IsServing_example =
    l4lb_main-IsServing memory memory-IsStore (λ ms k v. refl) hash digit config.dests config.vip
      (inl (λ _. none)) none events (omega arith) events-AreRounds
