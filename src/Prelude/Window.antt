-- ===== src/Prelude/Window.antt =====
-- A deque of timestamps, oldest first, over which a sliding window moves.
-- Time is a count of nanoseconds, in which the monotonic clock is read; a window of `w` ticks that ends at `now`
-- holds the timestamps `t` with `now < t + w`.
use Prim.Native.Nat.{ℕ, ◌+◌, ◌≤◌, ◌<◌}
use mathlib.Core.Path.{◌≡◌, refl, ◌∙◌}
use mathlib.Core.Logic.{inl, inr}
use mathlib.Core.List.{List, [], ◌∷◌, ◌++◌}
use native.Mathlib.Omega.{arith}
use strmline.Prelude.Tests.{leb, ltb, ltb→lt, Bool-cases, if◌then◌else◌}
use strmline.Prelude.Lists.{length, All, All-append, keep, keep-append}

abbrev pub ticks_per_second : ℕ
ticks_per_second = 1_000_000_000

-- `while ts and ts[0] <= now - w: ts.popleft()`, with the subtraction moved to the other side.
unfoldable pub pop_stale : ℕ → ℕ → List ℕ → List ℕ
pop_stale w now [] = []
pop_stale w now (t ∷ ts) = if leb (t + w) now then pop_stale w now ts else t ∷ ts

-- The timestamps that lie in the window, wherever they stand.
abbrev pub in_window : ℕ → ℕ → List ℕ → List ℕ
in_window w now = keep (λ t. ltb now (t + w))

-- Each timestamp is at most the next, and at most `top`.
abbrev pub Ascending : ℕ → List ℕ → Type 0
Ascending top [] = Unit
Ascending top (t ∷ ts) = (t ≤ top) × All (λ s. t ≤ s) ts × Ascending top ts

pub Ascending-mono : (a b : ℕ) (ts : List ℕ) → a ≤ b → Ascending a ts → Ascending b ts
Ascending-mono a b [] h s = tt
Ascending-mono a b (t ∷ ts) h (p, q, r) = (omega arith, q, Ascending-mono a b ts h r)

pub Ascending-top : (top : ℕ) (ts : List ℕ) → Ascending top ts → All (λ s. s ≤ top) ts
Ascending-top top [] s = tt
Ascending-top top (t ∷ ts) (p, q, r) = (p, Ascending-top top ts r)

-- A later reading of the clock may be put at the end.
pub Ascending-snoc :
    (top now : ℕ) (ts : List ℕ) → top ≤ now → Ascending top ts → Ascending now (ts ++ (now ∷ []))
Ascending-snoc top now [] h s = (omega arith, tt, tt)
Ascending-snoc top now (t ∷ ts) h (p, q, r) = (
  omega arith,
  All-append (λ s. t ≤ s) ts (now ∷ []) q (omega arith),
  Ascending-snoc top now ts h r,
)

pub in_window_fresh :
    (w now : ℕ) (ts : List ℕ) → All (λ s. now < s + w) ts → in_window w now ts ≡ ts
in_window_fresh w now [] h = refl
in_window_fresh w now (t ∷ ts) (p, q) = ground (arith, in_window_fresh w now ts q)

All-fresh :
    (w now t : ℕ) (ts : List ℕ) → now < t + w → All (λ s. t ≤ s) ts → All (λ s. now < s + w) ts
All-fresh w now t [] h q = tt
All-fresh w now t (s ∷ ts) h (p, q) = (omega arith, All-fresh w now t ts h q)

-- On an ascending deque, popping from the left leaves exactly the timestamps in the window.
pub pop_stale-eq-in_window :
    (w now top : ℕ) (ts : List ℕ) → Ascending top ts → pop_stale w now ts ≡ in_window w now ts
unfolding pop_stale
pop_stale-eq-in_window w now top [] s = refl
pop_stale-eq-in_window w now top (t ∷ ts) (p, q, r) = elim (Bool-cases (ltb now (t + w))) [
  | inl fresh ↦
      rw (in_window_fresh w now ts (All-fresh w now t ts (ltb→lt _ _ fresh) q)) (ground arith)
  | inr stale ↦ ground (arith, pop_stale-eq-in_window w now top ts r)
]

-- Narrowing the window twice is narrowing it once.
in_window-in_window :
    (w now later : ℕ) (ts : List ℕ)
    → now ≤ later
    → in_window w later (in_window w now ts) ≡ in_window w later ts
in_window-in_window w now later [] h = refl
in_window-in_window w now later (t ∷ ts) h = ground (arith, in_window-in_window w now later ts h)

pop_stale-All : (P : ℕ → Type 0) (w now : ℕ) (ts : List ℕ) → All P ts → All P (pop_stale w now ts)
unfolding pop_stale
pop_stale-All P w now [] a = a
pop_stale-All P w now (t ∷ ts) (p, q) = elim (Bool-cases (leb (t + w) now)) [
  | inl stale ↦ rw stale (pop_stale-All P w now ts q)
  | inr fresh ↦ rw fresh (p, q)
]

pub pop_stale-Ascending :
    (w now top : ℕ) (ts : List ℕ) → Ascending top ts → Ascending top (pop_stale w now ts)
unfolding pop_stale
pop_stale-Ascending w now top [] s = s
pop_stale-Ascending w now top (t ∷ ts) (p, q, r) = elim (Bool-cases (leb (t + w) now)) [
  | inl stale ↦ rw stale (pop_stale-Ascending w now top ts r)
  | inr fresh ↦ rw fresh (p, q, r)
]

pub length-pop_stale-le : (w now : ℕ) (ts : List ℕ) → length (pop_stale w now ts) ≤ length ts
unfolding pop_stale
length-pop_stale-le w now [] = omega arith
length-pop_stale-le w now (t ∷ ts) = ground (arith, length-pop_stale-le w now ts)

-- The deque stands for a history of timestamps: it is ascending up to `top`, the last reading of
-- the clock, and from then on the window shows the same in both.
pub record Tracks (w top : ℕ) (history ts : List ℕ) : Type 0 where
  pub ascending : Ascending top ts
  pub same : (now : ℕ) → top ≤ now → in_window w now ts ≡ in_window w now history

pub Tracks-nil : (w top : ℕ) → Tracks w top [] []
Tracks-nil w top = record { ascending = tt; same = λ now h. refl }

module _ (w top : ℕ) (history ts : List ℕ) (tracks : Tracks w top history ts) where
  pub pop_stale-eq-history : (now : ℕ) → top ≤ now → pop_stale w now ts ≡ in_window w now history
  pop_stale-eq-history now h =
      pop_stale-eq-in_window w now top ts tracks.ascending ∙ tracks.same now h

  pub Tracks-later : (now : ℕ) → top ≤ now → Tracks w now history ts
  Tracks-later now h = record {
    ascending = Ascending-mono top now ts h tracks.ascending;
    same = λ later k. tracks.same later (omega arith);
  }

  pub pop_stale-Tracks : (now : ℕ) → top ≤ now → Tracks w now history (pop_stale w now ts)
  pop_stale-Tracks now h = record {
    ascending = Ascending-mono top now _ h (pop_stale-Ascending w now top ts tracks.ascending);
    same = λ later k.
        rw (pop_stale-eq-in_window w now top ts tracks.ascending)
          (in_window-in_window w now later ts k ∙ tracks.same later (omega arith));
  }

  pub snoc-Tracks : (now : ℕ) → top ≤ now → Tracks w now (history ++ (now ∷ [])) (ts ++ (now ∷ []))
  snoc-Tracks now h = record {
    ascending = Ascending-snoc top now ts h tracks.ascending;
    same = λ later k. rw (
      keep-append (λ t. ltb later (t + w)) ts (now ∷ []),
      keep-append (λ t. ltb later (t + w)) history (now ∷ []),
      tracks.same later (omega arith),
    );
  }
