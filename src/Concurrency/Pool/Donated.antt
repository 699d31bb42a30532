-- ===== src/Concurrency/Pool/Donated.antt =====
-- What the workers of the pool have after each of some was handed a part of a list.
use plain.Prelude.{
  ℕ, zero, suc, ◌+◌, ◌-◌, ◌*◌, ◌≤◌, ◌<◌, ◌≡◌, ◌≢◌, ◌∙◌, refl, sym, ap, ap₂, Bool, false, none, some,
  List, [], ◌∷◌, ◌++◌, All, length, length-take, length-drop, take_all, drop_all, append-nil,
  drop-add, drop-append_length, get_elem?, take, drop, min, ◌==◌, if◌then◌else◌, arith,
}
use plain.Prelude.Sets.{has, has-nowhere, IsDistinct}
use plain.Concurrency.Pool.Share.{ThreadPool, enqueue_at, donate}
use mathlib.Core.Path.{subst}
use native.Mathlib.Decide.{ℕ_discrete}
use plain.Concurrency.Pool.Handed.{
  public_of, private_of, aborted_of, gained, gained_all, IsHanded, enqueue_at-IsHanded,
}

-- `n` parts of a list, from `b` on, the first of them up to `e`.
abbrev pub parts_end : ℕ → ℕ → ℕ → ℕ → ℕ
parts_end n d x b = b + n * d + min x n

-- A part has `d` tasks or one more.
abbrev pub AreFair : ThreadPool → ThreadPool → ℕ → List ℕ → Type 0
AreFair p q d ks = All (λ k. (d ≤ length (gained p q k)) × (length (gained p q k) ≤ d + 1)) ks

-- The workers `ks` have their parts of the tasks from `b` on, in order, and no others have any.
pub record IsShared (p : ThreadPool) (ks : List ℕ) (d b e : ℕ) (tasks : List ℕ) (q : ThreadPool)
    : Type 0 where
  pub parts : gained_all p q ks ≡ take (e - b) (drop b tasks)
  pub fair : AreFair p q d ks
  pub untouched : (j : ℕ) → has j ks ≡ false → get_elem? q.workers j ≡ get_elem? p.workers j
  pub owns_same : (j : ℕ) → private_of q j ≡ private_of p j
  pub kept_publics : (j : ℕ) → public_of q j ≡ public_of p j ++ gained p q j
  pub no_aborts : (j : ℕ) → aborted_of q j ≡ false
  pub same_many : length q.workers ≡ length p.workers

parts_end-suc :
    (n d x b : ℕ)
    → parts_end n d (x - 1) (if x == 0 then b + d else b + d + 1) ≡ parts_end (suc n) d x b
parts_end-suc n d x b = ground arith

take-add : (m n : ℕ) (xs : List ℕ) → take (m + n) xs ≡ take m xs ++ take n (drop m xs)
take-add zero n xs = ap (λ k. take k xs) {x = zero + n} {y = n} (omega arith)
take-add (suc m) n [] = take_all (suc m + n) [] (omega arith) ∙ sym (take_all n [] (omega arith))
take-add (suc m) n (x ∷ xs) =
    ap (λ k. take k (x ∷ xs)) {x = suc m + n} {y = suc (m + n)} (omega arith)
    ∙ ap (λ t. x ∷ t) (take-add m n xs)

take-two :
    (b e f : ℕ) (xs : List ℕ)
    → b ≤ e
    → e ≤ f
    → take (e - b) (drop b xs) ++ take (f - e) (drop e xs) ≡ take (f - b) (drop b xs)
take-two b e f xs h g =
    let at_e : drop (e - b) (drop b xs) ≡ drop e xs =
      sym (drop-add b (e - b) xs) ∙ ap (λ k. drop k xs) {y = e} (omega arith) in
    ap (λ t. take (e - b) (drop b xs) ++ take (f - e) t) (sym at_e)
    ∙ sym (take-add (e - b) (f - e) (drop b xs))
    ∙ ap (λ k. take k (drop b xs)) {y = f - b} (omega arith)

module _ (p m q : ThreadPool) (k : ℕ) (tasks : List ℕ) (one : IsHanded p k tasks m) where
  public_of-other : (j : ℕ) → k ≢ j → public_of m j ≡ public_of p j
  public_of-other j d =
      ap (λ o. elim o as (λ _. List ℕ) [ none ↦ [] | some w ↦ w.public_queue ]) (one.others j d)

  gained-other : (j : ℕ) → k ≢ j → gained m q j ≡ gained p q j
  gained-other j d = ap (λ xs. drop (length xs) (public_of q j)) (public_of-other j d)

  private_of-same : (j : ℕ) → private_of m j ≡ private_of p j
  private_of-same j = elim (ℕ_discrete k j) [
    | yes e ↦ subst (λ i. private_of m i ≡ private_of p i) e one.own
    | no d ↦
        ap (λ o. elim o as (λ _. List ℕ) [ none ↦ [] | some w ↦ w.private_queue ]) (one.others j d)
  ]

  pub aborted_of-same : (j : ℕ) → aborted_of m j ≡ aborted_of p j
  aborted_of-same j = elim (ℕ_discrete k j) [
    | yes e ↦ subst (λ i. aborted_of m i ≡ aborted_of p i) e one.aborts
    | no d ↦ ap (λ o. elim o as (λ _. Bool) [ none ↦ false | some w ↦ w.abort ]) (one.others j d)
  ]

  gained_all-other : (ks : List ℕ) → has k ks ≡ false → gained_all m q ks ≡ gained_all p q ks
  gained_all-other [] h = refl
  gained_all-other (j ∷ ks) h =
      let (d, later) = has-nowhere k j ks h in
      ap₂ ◌++◌ (gained-other j (λ e. d (sym e))) (gained_all-other ks later)

  fair-other : (d : ℕ) (ks : List ℕ) → has k ks ≡ false → AreFair m q d ks → AreFair p q d ks
  fair-other d [] h a = tt
  fair-other d (j ∷ ks) h a =
      let (differs, later) = has-nowhere k j ks h in
      (
        subst (λ xs. (d ≤ length xs) × (length xs ≤ d + 1)) (gained-other j (λ e. differs (sym e)))
            a.0,
        fair-other d ks later a.1,
      )

  -- When the later workers leave `k` alone, it has gained what it was handed.
  gained-handed :
      get_elem? q.workers k ≡ get_elem? m.workers k
      → (public_of q k ≡ public_of p k ++ tasks) × (gained p q k ≡ tasks)
  gained-handed e =
      let public : public_of q k ≡ public_of p k ++ tasks =
        ap (λ o. elim o as (λ _. List ℕ) [ none ↦ [] | some w ↦ w.public_queue ]) e ∙ one.handed in
      (public, ap (drop (length (public_of p k))) public ∙ drop-append_length (public_of p k) tasks)

IsShared-cons :
    (p m q : ThreadPool) (k : ℕ) (ks : List ℕ) (d b e f : ℕ) (tasks : List ℕ)
    → has k ks ≡ false
    → (b + d ≤ e) × (e ≤ b + d + 1) × (e ≤ f) × (f ≤ length tasks)
    → IsHanded p k (take (e - b) (drop b tasks)) m
    → IsShared m ks d e f tasks q
    → IsShared p (k ∷ ks) d b f tasks q
IsShared-cons p m q k ks d b e f tasks h bounds one rest =
    let slice = take (e - b) (drop b tasks) in
    let (public, gain) = gained-handed p m q k slice one (rest.untouched k h) in
    let long : length slice ≡ e - b =
      length-take (e - b) (drop b tasks) ∙ omega (arith, length-drop b tasks, bounds) in
    record {
      parts =
          ap₂ ◌++◌ gain (sym (gained_all-other p m q k slice one ks h) ∙ rest.parts)
          ∙ take-two b e f tasks (omega (arith, bounds)) (omega (arith, bounds));
      fair = (
        rw gain (omega (arith, long, bounds), omega (arith, long, bounds)),
        fair-other p m q k slice one d ks h rest.fair,
      );
      untouched = λ j g.
          let (differs, later) = has-nowhere j k ks g in
          rest.untouched j later ∙ one.others j differs;
      owns_same = λ j. rest.owns_same j ∙ private_of-same p m q k slice one j;
      kept_publics = λ j. elim (ℕ_discrete k j) [
        | yes same ↦
            subst (λ i. public_of q i ≡ public_of p i ++ gained p q i) same
              (public ∙ ap (λ t. public_of p k ++ t) (sym gain))
        | no differs ↦
            rest.kept_publics j
            ∙ ap₂ ◌++◌ (public_of-other p m q k slice one j differs)
                (gained-other p m q k slice one j differs)
      ];
      no_aborts = rest.no_aborts;
      same_many = rest.same_many ∙ one.many;
    }

donate-next :
    (k : ℕ) (ks : List ℕ) (d x b e : ℕ) (tasks : List ℕ) (p m : ThreadPool)
    → enqueue_at p k (take ((if x == 0 then e else e + 1) - b) (drop b tasks)) ≡ some m
    → donate (k ∷ ks) d x b e tasks p
      ≡ donate ks d
          (x - 1)
          (if x == 0 then e else e + 1)
          ((if x == 0 then e else e + 1) + d)
          tasks
          m
unfolding donate
donate-next k ks d x b e tasks p m h = rw (donate, h) refl

pub donate-IsShared :
    (ks : List ℕ) (d x b : ℕ) (tasks : List ℕ) (p : ThreadPool)
    → IsDistinct ks
    → All (λ k. k < length p.workers) ks
    → ((j : ℕ) → aborted_of p j ≡ false)
    → parts_end (length ks) d x b ≤ length tasks
    → (q : ThreadPool) × (donate ks d x b (b + d) tasks p ≡ (q, parts_end (length ks) d x b, false))
      × IsShared p ks d b (parts_end (length ks) d x b) tasks q
unfolding donate
donate-IsShared [] d x b tasks p distinct inside live room =
    let e : parts_end 0 d x b ≡ b = omega arith in
    (
      p,
      ap (λ t. (p, t, false)) (sym e),
      record {
        parts = ap (λ k. take k (drop b tasks)) {x = 0} (omega arith);
        fair = tt;
        untouched = λ j h. refl;
        owns_same = λ j. refl;
        kept_publics = λ j. sym (
            ap (λ t. public_of p j ++ t)
              (drop_all (length (public_of p j)) (public_of p j) (omega arith))
            ∙ append-nil (public_of p j));
        no_aborts = live;
        same_many = refl;
      },
    )
donate-IsShared (k ∷ ks) d x b tasks p distinct inside live room =
    let e = if x == 0 then b + d else b + d + 1 in
    let f = parts_end (suc (length ks)) d x b in
    let ends = parts_end-suc (length ks) d x b in
    let (m, eq, one) = enqueue_at-IsHanded p k (take (e - b) (drop b tasks)) inside.0 (live k) in
    let (q, eqs, rest) =
      donate-IsShared ks d (x - 1) e tasks m distinct.1
        (subst (λ n. All (λ j. j < n) ks) (sym one.many) inside.1)
        (λ j. aborted_of-same p m m k (take (e - b) (drop b tasks)) one j ∙ live j)
        (omega (arith, ends, room)) in
    (
      q,
      donate-next k ks d x b (b + d) tasks p m eq ∙ (eqs ∙ ap (λ t. (q, t, false)) ends),
      IsShared-cons p m q k ks d b e f tasks distinct.0 (ground (arith, ends, room)) one
          (subst (λ t. IsShared m ks d e t tasks q) ends rest),
    )
