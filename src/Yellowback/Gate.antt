-- ===== src/Yellowback/Gate.antt =====
-- Which calls reach the node, and how its errors are classed.
use Prim.Native.String.{String}
use text.Mathlib.Text.{◌==◌}
use text.Mathlib.TextEquality.{eq_iff}
use native.Mathlib.Omega.{arith}
use lightwalletd.Common.{
  List, [], ◌∷◌, ◌≡◌, refl, ◌∙◌, ap, Bool, true, false, ◌||◌, ◌&&◌, not, Bool-cases, inl, inr,
  Option, none, some, ok, err, All, ℕ,
}
use lightwalletd.Yellowback.Methods.{
  yed_methods, stock_methods, vault_methods, has, is_allowed, is_declined,
}
use lightwalletd.Yellowback.Calls.{
  Queue, busy, departed, slot, Reply, answered, departed_waiting, Request, ReadCache, Server,
  after_reply, after_queue, after_lookup, call_yed, call_all,
}

abbrev none_declined : List String → Bool
none_declined [] = true
none_declined (m ∷ ms) = not (is_declined m) && none_declined ms

both_true : (a b : Bool) → (not a && b) ≡ true → (a ≡ false) × (b ≡ true)
both_true a b h = ground arith

third : (a b c : Bool) → a ≡ false → b ≡ false → (a || b || c) ≡ true → c ≡ true
third a b c h k l = ground arith

member_not_declined :
    (ms : List String) (method : String)
    → none_declined ms ≡ true
    → has ms method ≡ true
    → is_declined method ≡ false
member_not_declined [] method h k = absurd (ground arith)
member_not_declined (m ∷ ms) method h k =
    let (first, rest) = both_true (is_declined m) (none_declined ms) h in
    elim (Bool-cases (method == m)) [
      | inl e ↦ ap is_declined ((eq_iff method m).0 e) ∙ first
      | inr e ↦ member_not_declined ms method rest (rw e at k)
    ]

-- No method that the service declines is allowed.
pub allowed_not_declined : (method : String) → is_allowed method ≡ true → is_declined method ≡ false
unfolding is_allowed
allowed_not_declined method h = elim (Bool-cases (has yed_methods method)) [
  | inl y ↦ member_not_declined yed_methods method (unfold is_declined in refl) y
  | inr y ↦ elim (Bool-cases (has stock_methods method)) [
    | inl s ↦ member_not_declined stock_methods method (unfold is_declined in refl) s
    | inr s ↦
        member_not_declined vault_methods method (unfold is_declined in refl) (
          third (has yed_methods method) (has stock_methods method) (has vault_methods method) y s
            h)
  ]
]

-- A call that may reach the node: its method is on a list, and is not one that is declined.
abbrev pub IsOffered : String × List (List ℕ) → Type 0
IsOffered call = (is_allowed call.0 ≡ true) × (is_declined call.0 ≡ false)

module _ {C : Type 0} (r : ReadCache C) where
  after_reply-sent :
      (q : Request) (key : List ℕ) (s : Server C) (reply : Reply)
      → All IsOffered s.sent
      → All IsOffered (after_reply r q key s reply).1.sent
  after_reply-sent q key s (answered (ok raw)) a = a
  after_reply-sent q key s (answered (err e)) a = a
  after_reply-sent q key s (departed_waiting d) a = a

  after_queue-sent :
      (q : Request) (key : List ℕ) (s : Server C) (queue : Queue)
      → is_allowed q.method ≡ true
      → All IsOffered s.sent
      → All IsOffered (after_queue r q key s queue).1.sent
  after_queue-sent q key s busy h a = a
  after_queue-sent q key s (departed d) h a = a
  after_queue-sent q key s slot h a =
      after_reply-sent q key (record s { sent = (q.method, q.params) ∷ s.sent }) q.reply
        ((h, allowed_not_declined q.method h), a)

  after_lookup-sent :
      (q : Request) (key : List ℕ) (s : Server C) (found : Option (List ℕ) × C)
      → is_allowed q.method ≡ true
      → All IsOffered s.sent
      → All IsOffered (after_lookup r q key s found).1.sent
  after_lookup-sent q key s (some raw, c) h a = a
  after_lookup-sent q key s (none, c) h a =
      after_queue-sent q key (record s { cache = c }) q.queue h a

  call_yed-sent :
      (q : Request) (s : Server C) → All IsOffered s.sent → All IsOffered (call_yed r q s).1.sent
  unfolding call_yed
  call_yed-sent q s a = elim (Bool-cases (is_allowed q.method)) [
    | inl h ↦ rw h (
        after_lookup-sent q (r.key q.method q.params) s (r.lookup s.cache (r.key q.method q.params))
          h a)
    | inr h ↦ rw h a
  ]

  -- Whatever is asked for and however the calls end, the node only sees methods that are on the
  -- allow-lists, and none of those that are declined, such as a wallet's.
  pub call_all-sent :
      (qs : List Request) (s : Server C)
      → All IsOffered s.sent
      → All IsOffered (call_all r qs s).sent
  unfolding call_all
  call_all-sent [] s a = a
  call_all-sent (q ∷ qs) s a = call_all-sent qs (call_yed r q s).1 (call_yed-sent q s a)
