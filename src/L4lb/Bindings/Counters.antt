-- ===== src/L4lb/Bindings/Counters.antt =====
-- The counters of all CPUs, and how they are printed.
use Prim.Native.String.{String, slice, len}
use text.Mathlib.TextLemmas.{append-nil, append_assoc}
use text.Mathlib.TextPositions.{len-append, slice-append_left, slice-append_right}
use ncdn.Base.{
  ℕ, ◌+◌, ◌-◌, ◌%◌, ◌^◌, ◌≡◌, refl, sym, ap, ◌∙◌, arith, true, Bool-cases, List, [], ◌∷◌, inl, inr,
  ◌==◌, if◌then◌else◌,
}
use ncdn.L4lb.Bindings.{
  concat, StatCounters, add, zero_counters, add_all, read_stat_counters_aggregate, write_counters,
  ends_in_comma, to_string, named_counters,
}

-- The counters, by name.
pub data Counter : Type 0 where
  rx_packets : Counter
  rx_size : Counter
  too_short : Counter
  non_ipv4 : Counter
  ip_option : Counter
  non_supported : Counter
  no_vip : Counter
  failed_head : Counter
  failed_tail : Counter

abbrev pub counter : Counter → StatCounters → ℕ
counter rx_packets c = c.rx_packet_total
counter rx_size c = c.rx_total_size
counter too_short c = c.too_short_packet_total
counter non_ipv4 c = c.non_ipv4_packet_total
counter ip_option c = c.ip_option_packet_total
counter non_supported c = c.non_supported_proto_packet_total
counter no_vip c = c.no_vip_match_total
counter failed_head c = c.failed_adjust_head_total
counter failed_tail c = c.failed_adjust_tail_total

-- The sum of one counter over the CPUs.
abbrev pub sum_of : Counter → List StatCounters → ℕ
sum_of f [] = 0
sum_of f (c ∷ cs) = counter f c + sum_of f cs

counter-add :
    (f : Counter) (c d : StatCounters)
    → counter f (add c d) ≡ (counter f c + counter f d) % (2 ^ 64)
unfolding add
counter-add rx_packets c d = refl
counter-add rx_size c d = refl
counter-add too_short c d = refl
counter-add non_ipv4 c d = refl
counter-add ip_option c d = refl
counter-add non_supported c d = refl
counter-add no_vip c d = refl
counter-add failed_head c d = refl
counter-add failed_tail c d = refl

counter-zero : (f : Counter) → counter f zero_counters ≡ 0
counter-zero rx_packets = refl
counter-zero rx_size = refl
counter-zero too_short = refl
counter-zero non_ipv4 = refl
counter-zero ip_option = refl
counter-zero non_supported = refl
counter-zero no_vip = refl
counter-zero failed_head = refl
counter-zero failed_tail = refl

counter-add_all :
    (f : Counter) (acc : StatCounters) (cs : List StatCounters) (n : ℕ)
    → counter f acc ≡ n % (2 ^ 64)
    → counter f (add_all acc cs) ≡ (n + sum_of f cs) % (2 ^ 64)
unfolding add_all
counter-add_all f acc [] n h = omega arith
counter-add_all f acc (c ∷ cs) n h =
    let step = counter-add f acc c in
    let folded = counter-add_all f (add acc c) cs (n + counter f c) (omega arith) in omega arith

-- What `ReadStatCountersAggregate` returns for the counters of the CPUs: each counter is the sum of that
-- counter over the CPUs, modulo 2^64.
pub read_stat_counters_aggregate-sum_of :
    (cs : List StatCounters)
    → (total : StatCounters) × (read_stat_counters_aggregate (inl cs) ≡ inl total)
      × ((f : Counter) → counter f total ≡ sum_of f cs % (2 ^ 64))
unfolding read_stat_counters_aggregate
read_stat_counters_aggregate-sum_of cs = (
  add_all zero_counters cs,
  refl,
  λ f.
      let all = counter-add_all f zero_counters cs 0 (omega (arith, counter-zero f)) in omega arith,
)

-- The counters that are printed.
abbrev pub shown : (ℕ → String) → List (String × ℕ) → List String
shown decimal [] = []
shown decimal ((name, n) ∷ cs) =
    let rest = shown decimal cs in
    if n == 0 then rest else concat name (concat "=" (decimal n)) ∷ rest

abbrev pub join : List String → String
join [] = ""
join (x ∷ []) = x
join (x ∷ y ∷ xs) = let rest = join (y ∷ xs) in concat x (concat ", " rest)

abbrev trail : List String → String
trail [] = ""
trail (x ∷ xs) = concat (concat x ", ") (trail xs)

trail-join : (x : String) (xs : List String) → trail (x ∷ xs) ≡ concat (join (x ∷ xs)) ", "
trail-join x [] = append-nil (concat x ", ")
trail-join x (y ∷ xs) = ap (concat (concat x ", ")) (trail-join y xs) ∙ assoc x (join (y ∷ xs))
  where
    assoc :
        (a b : String)
        → concat (concat a ", ") (concat b ", ") ≡ concat (concat a (concat ", " b)) ", "
    assoc a b = simp append_assoc refl

write_counters-trail :
    (decimal : ℕ → String) (buf : String) (cs : List (String × ℕ))
    → write_counters decimal buf cs ≡ concat buf (trail (shown decimal cs))
unfolding write_counters
write_counters-trail decimal buf [] = sym (append-nil buf)
write_counters-trail decimal buf ((name, n) ∷ cs) = elim (Bool-cases (n == 0)) [
  | inl is_zero ↦ rw (is_zero, write_counters) (write_counters-trail decimal buf cs)
  | inr some_n ↦
      rw (some_n, write_counters)
        (write_counters-trail decimal
            (concat buf (concat (concat name (concat "=" (decimal n))) ", ")) cs
          ∙ append_assoc buf _ (trail (shown decimal cs)))
]

ends : (s : String) → ends_in_comma (concat s ", ") ≡ true
ends s =
    let l = len-append s ", " in
    let n : len (concat s ", ") - 2 ≡ len s = omega arith in
    rw (n, l, slice-append_right s ", ") refl

cut : (s : String) → slice (concat s ", ") 0 (len (concat s ", ") - 2) ≡ s
cut s =
    let l = len-append s ", " in
    let n : len (concat s ", ") - 2 ≡ len s = omega arith in rw n (slice-append_left s ", ")

-- The counters are printed in braces, those that are not 0, separated by commas.
pub to_string-join :
    (decimal : ℕ → String) (c : StatCounters)
    → to_string decimal c
      ≡ concat (concat "StatCounters{" (join (shown decimal (named_counters c)))) "}"
unfolding to_string
to_string-join decimal c =
    rw (write_counters-trail decimal "StatCounters{" (named_counters c))
      (closed (shown decimal (named_counters c)))
  where
    closed :
        (xs : List String)
        → concat
            (if ends_in_comma (concat "StatCounters{" (trail xs))
              then slice
                  (concat "StatCounters{" (trail xs))
                  0
                  (len (concat "StatCounters{" (trail xs)) - 2)
              else concat "StatCounters{" (trail xs))
            "}"
          ≡ concat (concat "StatCounters{" (join xs)) "}"
    closed [] = refl
    closed (x ∷ xs) =
        let split : concat "StatCounters{" (trail (x ∷ xs))
            ≡ concat (concat "StatCounters{" (join (x ∷ xs))) ", " =
          ap (concat "StatCounters{") (trail-join x xs)
          ∙ sym (append_assoc "StatCounters{" (join (x ∷ xs)) ", ") in
        rw
          (
            split,
            ends (concat "StatCounters{" (join (x ∷ xs))),
            cut (concat "StatCounters{" (join (x ∷ xs))),
          )
          refl
