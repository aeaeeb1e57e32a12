-- ===== src/Rules/Matching/Exact.antt =====
-- `CompiledRule::find` (crates/analyzer/src/attack_rules.rs) against all selections of events.
use newhatch.Common.{
  ℕ, zero, suc, ◌+◌, ◌≤◌, ◌<◌, ◌≡◌, refl, sym, ap, ◌∙◌, arith, ltb, true, Option, none, some, List,
  [], ◌∷◌, ◌++◌, length, Bool-cases, Option-cases, inl, inr,
}
use mathlib.Core.Path.{subst}
use newhatch.Rules.{CompiledRule, RuleLibrary, EventRef, HttpEvent, step_matches}
use newhatch.Rules.Matching.{Candidate, expire_one, expire, active_at, path_of, path_before, gap_of}
use newhatch.Rules.Matching.Steps.{length-expire, active_at-expire, renewed}

-- The event at a position, where there is one.
abbrev pub event_at : List (Option HttpEvent) → ℕ → Option HttpEvent
event_at [] i = none
event_at (event ∷ events) zero = event
event_at (event ∷ events) (suc i) = event_at events i

module _ (library : RuleLibrary) (rule : CompiledRule) (event : ℕ → Option HttpEvent) where
  -- The first steps up to `s` are met by events of which the last stands at `i`: each is behind the
  -- one before it, with at most the rule's gap between them.
  abbrev pub Reaches : ℕ → ℕ → List EventRef → Type 0
  Reaches zero i path =
      (e : HttpEvent) × (event i ≡ some e)
      × (step_matches library rule zero e ≡ true)
      × (path ≡ e.reference ∷ [])
  Reaches (suc s) i path =
      (e : HttpEvent) × (event i ≡ some e)
      × (step_matches library rule (suc s) e ≡ true)
      × (j : ℕ) × (before : List EventRef) × Reaches s j before
      × (j < i)
      × (i ≤ j + gap_of rule + 1)
      × (path ≡ before ++ (e.reference ∷ []))

  -- What the candidates say before the event at `k`.
  pub record Tracks (last k : ℕ) (a : List (Option Candidate)) : Type 0 where
    pub long : length a ≡ suc last
    pub sound :
        (s i : ℕ) (path : List EventRef)
        → active_at a s ≡ some (i, path)
        → (i < k) × Reaches s i path
    pub latest :
        (s j : ℕ) (path : List EventRef)
        → s < last
        → j < k
        → k ≤ j + gap_of rule + 1
        → Reaches s j path
        → (i : ℕ) × (p : List EventRef) × (active_at a s ≡ some (i, p)) × (j ≤ i)

  expire_one-some :
      (k i : ℕ) (path : List EventRef) (c : Option Candidate)
      → expire_one (gap_of rule) k c ≡ some (i, path)
      → (c ≡ some (i, path)) × (k ≤ i + gap_of rule + 1)
  unfolding expire_one
  expire_one-some k i path none h = absurd cc
  expire_one-some k i path (some (j, p)) h = ground (arith, h)

  expire_one_kept :
      (k i : ℕ) (path : List EventRef)
      → k ≤ i + gap_of rule + 1
      → expire_one (gap_of rule) k (some (i, path)) ≡ some (i, path)
  unfolding expire_one
  expire_one_kept k i path h = ground arith

  -- The candidates once the ones that are too far back are dropped.
  pub record IsFresh (last k : ℕ) (a : List (Option Candidate)) : Type 0 where
    pub tracks : Tracks last k a
    pub near :
        (s i : ℕ) (path : List EventRef) → active_at a s ≡ some (i, path) → k ≤ i + gap_of rule + 1

  pub expire-IsFresh :
      (last k : ℕ) (a : List (Option Candidate))
      → Tracks last k a
      → IsFresh last k (expire (gap_of rule) k a)
  expire-IsFresh last k a t = record {
    tracks = record {
      long = length-expire (gap_of rule) k a ∙ t.long;
      sound = λ s i path e.
          t.sound s i path
            (expire_one-some k i path (active_at a s)
              (sym (active_at-expire (gap_of rule) k a s) ∙ e)).0;
      latest = λ s j path hs hj near r.
          let (i, p, e, le) = t.latest s j path hs hj near r in
          (
            i,
            p,
            active_at-expire (gap_of rule) k a s
                ∙ ap (expire_one (gap_of rule) k) e
                ∙ expire_one_kept k i p (omega arith),
            le,
          );
    };
    near = λ s i path e.
        (expire_one-some k i path (active_at a s)
          (sym (active_at-expire (gap_of rule) k a s) ∙ e)).1;
  }

  path_of-some :
      (c : Option Candidate) (path : List EventRef)
      → path_of c ≡ some path
      → (j : ℕ) × (c ≡ some (j, path))
  unfolding path_of
  path_of-some none path h = absurd cc
  path_of-some (some (j, p)) path h = (j, cc)

  -- A step's candidate from those before it, for the event at `k`.
  pub before-Reaches :
      (last k s : ℕ) (a : List (Option Candidate)) (e : HttpEvent) (path : List EventRef)
      → IsFresh last k a
      → event k ≡ some e
      → step_matches library rule s e ≡ true
      → path_before a s ≡ some path
      → Reaches s k (path ++ (e.reference ∷ []))
  unfolding path_before path_of
  before-Reaches last k zero a e path f at m b =
      let empty : path ≡ [] = cc in (e, at, m, ap (λ t. t ++ (e.reference ∷ [])) empty)
  before-Reaches last k (suc s) a e path f at m b =
      let (j, c) = path_of-some (active_at a s) path b in
      let (lt, r) = f.tracks.sound s j path c in (e, at, m, j, path, r, lt, f.near s j path c, refl)

  -- A selection that ends at `k` is one that the candidates know of.
  pub Reaches-before :
      (last k s : ℕ) (a : List (Option Candidate)) (e : HttpEvent) (path : List EventRef)
      → IsFresh last k a
      → s < suc last
      → event k ≡ some e
      → Reaches s k path
      → (step_matches library rule s e ≡ true) × (p : List EventRef) × (path_before a s ≡ some p)
  unfolding path_before path_of
  Reaches-before last k zero a e path f h at (e', at', m, r) =
      let same : e' ≡ e = cc in
      (subst (λ x. step_matches library rule zero x ≡ true) same m, [], refl)
  Reaches-before last k (suc s) a e path f h at (e', at', m, j, before, r, lt, le, eq) =
      let same : e' ≡ e = cc in
      let (i, p, c, _) = f.tracks.latest s j before (omega arith) lt le r in
      (subst (λ x. step_matches library rule (suc s) x ≡ true) same m, p, ap path_of c)

  abbrev renewed_at : ℕ → HttpEvent → ℕ → List (Option Candidate) → Option Candidate
  renewed_at k e s a =
      renewed library rule k e (step_matches library rule s e) (path_before a s) (active_at a s)

  renewed_sound :
      (last k s i : ℕ) (a : List (Option Candidate)) (e : HttpEvent) (path : List EventRef)
      → IsFresh last k a
      → event k ≡ some e
      → renewed_at k e s a ≡ some (i, path)
      → (i < suc k) × Reaches s i path
  renewed_sound last k s i a e path f at c = elim (Bool-cases (step_matches library rule s e)) [
    | inr m ↦ let (lt, r) = f.tracks.sound s i path (rw m at c) in (omega arith, r)
    | inl m ↦ elim (Option-cases (path_before a s)) [
      | inl b ↦ let (lt, r) = f.tracks.sound s i path (rw (m, b) at c) in (omega arith, r)
      | inr (p, b) ↦
          let found : ◌≡◌ {A = Option Candidate} (some (k, p ++ (e.reference ∷ [])))
              (some (i, path)) =
            rw (m, b) at c in
          let here : k ≡ i = cc in
          let there : p ++ (e.reference ∷ []) ≡ path = cc in
          (
            omega arith,
            subst (λ x. Reaches s x path) here
                (subst (λ t. Reaches s k t) there (before-Reaches last k s a e p f at m b)),
          )
    ]
  ]

  renewed_latest :
      (k s i j : ℕ) (a : List (Option Candidate)) (e : HttpEvent) (p : List EventRef)
      → active_at a s ≡ some (i, p)
      → j ≤ i
      → j ≤ k
      → (x : ℕ) × (q : List EventRef) × (renewed_at k e s a ≡ some (x, q)) × (j ≤ x)
  renewed_latest k s i j a e p c le lek = elim (Bool-cases (step_matches library rule s e)) [
    | inr m ↦ (i, p, rw m c, le)
    | inl m ↦ elim (Option-cases (path_before a s)) [
      | inl b ↦ (i, p, rw (m, b) c, le)
      | inr (q, b) ↦ (k, q ++ (e.reference ∷ []), rw (m, b) refl, lek)
    ]
  ]

  renewed_now :
      (last k s : ℕ) (a : List (Option Candidate)) (e : HttpEvent) (path : List EventRef)
      → IsFresh last k a
      → s < last
      → event k ≡ some e
      → Reaches s k path
      → (x : ℕ) × (q : List EventRef) × (renewed_at k e s a ≡ some (x, q)) × (k ≤ x)
  renewed_now last k s a e path f h at r =
      let (m, q, b) = Reaches-before last k s a e path f (omega arith) at r in
      (k, q ++ (e.reference ∷ []), rw (m, b) refl, omega arith)

  -- The candidates behind the event at `k`, where it completes no match.
  pub renewed-Tracks :
      (last k : ℕ) (a a' : List (Option Candidate)) (e : HttpEvent)
      → IsFresh last k a
      → event k ≡ some e
      → length a' ≡ length a
      → ((s : ℕ)
          → s < last
          → active_at a' s
            ≡ renewed library rule k e
                (step_matches library rule s e)
                (path_before a s)
                (active_at a s))
      → ((s : ℕ) → last ≤ s → active_at a' s ≡ active_at a s)
      → Tracks last (suc k) a'
  renewed-Tracks last k a a' e f at long below above = record {
    long = long ∙ f.tracks.long;
    sound = λ s i path c. elim (Bool-cases (ltb s last)) [
      | inl b ↦ renewed_sound last k s i a e path f at (sym (below s (ground arith)) ∙ c)
      | inr b ↦
          let (lt, r) = f.tracks.sound s i path (sym (above s (ground arith)) ∙ c) in
          (omega arith, r)
    ];
    latest = λ s j path hs hj near r. elim (Bool-cases (ltb j k)) [
      | inl b ↦
          let (i, p, c, le) = f.tracks.latest s j path hs (ground arith) (omega arith) r in
          let (x, q, d, le') = renewed_latest k s i j a e p c le (ground arith) in
          (x, q, below s hs ∙ d, le')
      | inr b ↦
          let here : j ≡ k = ground arith in
          let (x, q, d, le) =
            renewed_now last k s a e path f hs at (subst (λ n. Reaches s n path) here r) in
          (x, q, below s hs ∙ d, omega arith)
    ];
  }

  pub not-Reaches : (s k : ℕ) (path : List EventRef) → event k ≡ none → ¬ (Reaches s k path)
  not-Reaches zero k path at (e, at', m, r) = cc
  not-Reaches (suc s) k path at (e, at', m, j, before, r, lt, le, eq) = cc

  -- An event that meets nothing leaves the candidates.
  pub idle-Tracks :
      (last k : ℕ) (a : List (Option Candidate))
      → IsFresh last k a
      → event k ≡ none
      → Tracks last (suc k) a
  idle-Tracks last k a f at = record {
    long = f.tracks.long;
    sound = λ s i path c. let (lt, r) = f.tracks.sound s i path c in (omega arith, r);
    latest = λ s j path hs hj near r. elim (Bool-cases (ltb j k)) [
      | inl b ↦ f.tracks.latest s j path hs (ground arith) (omega arith) r
      | inr b ↦
          let here : j ≡ k = ground arith in
          absurd (not-Reaches s k path at (subst (λ n. Reaches s n path) here r))
    ];
  }
