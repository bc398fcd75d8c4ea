-- ===== src/Runtime/Signals/Filed.antt =====
-- Each buffer of packages/core/src/runtime/signalBus.ts has the records of its channel.
use frond.Shared.{
  ℕ, zero, suc, ◌-◌, ◌≡◌, refl, ◌∙◌, String, true, ◌||◌, List, [], ◌∷◌, ◌++◌, ◌==◌, beq_refl,
  beq_sym, string_eq, nat_eq, has, length, drop, ltb, arith, All, All-append, Bool-cases, inl, inr,
  if_both,
}
use frond.Shared.Maps.{get, put, keys}
use frond.Runtime.Policies.{NormalizedRuntimeSignalPolicy, keep_none, bounded}
use frond.Runtime.Signals.{RuntimeSignalRecord, Buffers, or_empty, trimmed, stored}
use frond.Runtime.Signals.Kept.{is_on, IsFiled}

All-drop :
    (P : RuntimeSignalRecord → Type 0) (n : ℕ) (rs : List RuntimeSignalRecord)
    → All P rs
    → All P (drop n rs)
All-drop P zero rs h = h
All-drop P (suc n) [] h = tt
All-drop P (suc n) (r ∷ rs) h = All-drop P n rs h.1

abbrev pub On : String → RuntimeSignalRecord → Type 0
On channel r = is_on channel r ≡ true

get-IsFiled :
    (channel : String) (buffers : Buffers)
    → IsFiled buffers
    → All (On channel) (or_empty (get channel buffers))
unfolding get
get-IsFiled channel [] h = tt
get-IsFiled channel ((k, rs) ∷ buffers) h = elim (Bool-cases (k == channel)) [
  | inl e ↦ rw (e, get) (rw (← (string_eq.beq_iff k channel).0 e) h.0)
  | inr e ↦ rw (e, get) (get-IsFiled channel buffers h.2)
]

has-keys-put :
    (channel k : String) (rs : List RuntimeSignalRecord) (buffers : Buffers)
    → has k (keys (put channel rs buffers)) ≡ (channel == k || has k (keys buffers))
unfolding has put
has-keys-put channel k rs [] = refl
has-keys-put channel k rs ((j, ss) ∷ buffers) =
    ground (arith, has-keys-put channel k rs buffers, string_eq.beq_iff j channel)

put-IsFiled :
    (channel : String) (rs : List RuntimeSignalRecord) (buffers : Buffers)
    → All (On channel) rs
    → IsFiled buffers
    → IsFiled (put channel rs buffers)
unfolding put has
put-IsFiled channel rs [] on h = (on, refl, tt)
put-IsFiled channel rs ((j, ss) ∷ buffers) on h = elim (Bool-cases (j == channel)) [
  | inl e ↦ rw (e, put) (rw ((string_eq.beq_iff j channel).0 e) on, h.1, h.2)
  | inr e ↦
      rw (e, put)
        (
          h.0,
          has-keys-put channel j rs buffers ∙ ground (arith, e, h.1, beq_sym channel j),
          put-IsFiled channel rs buffers on h.2,
        )
]

trimmed-On :
    (channel : String) (size : ℕ) (rs : List RuntimeSignalRecord)
    → All (On channel) rs
    → All (On channel) (trimmed size rs)
trimmed-On channel size rs h =
    if_both (All (On channel)) (ltb 0 (length rs - size)) (drop (length rs - size) rs) rs
      (λ e. All-drop (On channel) (length rs - size) rs h) (λ e. h)

pub stored-IsFiled :
    (p : NormalizedRuntimeSignalPolicy) (entry : RuntimeSignalRecord) (buffers : Buffers)
    → IsFiled buffers
    → IsFiled (stored p entry.signal.channel entry buffers)
unfolding stored
stored-IsFiled keep_none entry buffers h = h
stored-IsFiled (bounded size) entry buffers h =
    let channel = entry.signal.channel in
    let grown : All (On channel) (or_empty (get channel buffers) ++ entry ∷ []) =
      All-append (On channel) (or_empty (get channel buffers)) (entry ∷ [])
        (get-IsFiled channel buffers h) (beq_refl channel, tt) in
    put-IsFiled channel _ buffers (trimmed-On channel size _ grown) h
