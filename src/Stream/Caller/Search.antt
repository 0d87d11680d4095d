-- ===== src/Stream/Caller/Search.antt =====
-- _core/stream_errors.py, original_in: it ends, and finds an error of the caller where there is one.
use mountainash_transport.Prelude.{
  ℕ, zero, suc, ◌+◌, ◌*◌, ◌≤◌, ◌<◌, ◌≡◌, refl, sym, subst, ◌⊎◌, inl, inr, true, false, Option, none,
  some, List, [], ◌∷◌, length, err, ◌==◌, if◌then◌else◌, contains, nat_eq, arith, Bool-cases,
  Option-cases, All, ==_iff,
}
use mountainash_transport.Prelude.Dict.{lookup}
use mountainash_transport.Stream.Caller.{
  Exceptions, Errors, push, search, original_in, write_from_stream,
}

contains-push :
    (o : Option ℕ) (l : List ℕ) (x : ℕ) → contains l x ≡ true → contains (push o l) x ≡ true
unfolding push
contains-push none l x h = h
contains-push (some e) l x h = ground (arith, h)

push-mem : (o : Option ℕ) (l : List ℕ) (x : ℕ) → o ≡ some x → contains (push o l) x ≡ true
unfolding push
push-mem none l x h = ground (arith, h)
push-mem (some e) l x h = ground (arith, h)

-- The exceptions below n that are not seen yet.
unfoldable unseen : ℕ → List ℕ → ℕ
unseen zero seen = 0
unseen (suc n) seen = (if contains seen n then 0 else 1) + unseen n seen

unseen-above : (n c : ℕ) (seen : List ℕ) → n ≤ c → unseen n (c ∷ seen) ≡ unseen n seen
unfolding unseen
unseen-above zero c seen h = refl
unseen-above (suc n) c seen h = ground (arith, h, unseen-above n c seen (omega arith))

unseen-cons :
    (n c : ℕ) (seen : List ℕ)
    → c < n
    → contains seen c ≡ false
    → unseen n seen ≡ suc (unseen n (c ∷ seen))
unfolding unseen
unseen-cons zero c seen h k = ground (arith, h)
unseen-cons (suc n) c seen h k = elim (Bool-cases (n == c)) [
  | inl a ↦ ground (arith, a, k, unseen-above n c seen)
  | inr a ↦ ground (arith, a, h, k, unseen-cons n c seen)
]

module _ (E : Exceptions) (errors : Errors) where
  -- By causes and contexts, from one exception to another.
  pub data Reaches (a : ℕ) : ℕ → Type 0 where
    itself : Reaches a a
    by_cause : {b c : ℕ} → Reaches a b → E.cause b ≡ some c → Reaches a c
    by_context : {b c : ℕ} → Reaches a b → E.context b ≡ some c → Reaches a c

  abbrev Known : List ℕ → List ℕ → ℕ → Type 0
  Known pending seen x = (contains seen x ≡ true) ⊎ (contains pending x ≡ true)

  -- What holds whenever the loop comes round.
  record Searching (start : ℕ) (pending seen : List ℕ) : Type 0 where
    pub reached : (x : ℕ) → contains pending x ≡ true → Reaches start x
    pub begun : Known pending seen start
    pub clear : (x : ℕ) → contains seen x ≡ true → lookup x errors ≡ none
    pub causes : (x y : ℕ) → contains seen x ≡ true → E.cause x ≡ some y → Known pending seen y
    pub contexts : (x y : ℕ) → contains seen x ≡ true → E.context x ≡ some y → Known pending seen y

  -- What is found: an error of the caller that is reached, or none where none is.
  abbrev pub Found : ℕ → Option (ℕ × ℕ) → Type 0
  Found start none = ¬ ((x traceback : ℕ) × Reaches start x × (lookup x errors ≡ some traceback))
  Found start (some (x, traceback)) = Reaches start x × (lookup x errors ≡ some traceback)

  Known-nil : (seen : List ℕ) (x : ℕ) → Known [] seen x → contains seen x ≡ true
  Known-nil seen x (inl h) = h
  Known-nil seen x (inr h) = ground (arith, h)

  all_seen :
      {start x : ℕ} {seen : List ℕ}
      → Searching start [] seen
      → Reaches start x
      → contains seen x ≡ true
  all_seen {start} {x} {seen} s itself = Known-nil seen x s.begun
  all_seen {start} {x} {seen} s (by_cause r e) = Known-nil seen x (s.causes _ x (all_seen s r) e)
  all_seen {start} {x} {seen} s (by_context r e) =
      Known-nil seen x (s.contexts _ x (all_seen s r) e)

  -- One that is pending again is dropped.
  Known-drop :
      (c : ℕ) (pending seen : List ℕ) (x : ℕ)
      → contains seen c ≡ true
      → Known (c ∷ pending) seen x
      → Known pending seen x
  Known-drop c pending seen x h (inl k) = inl k
  Known-drop c pending seen x h (inr k) = elim (Bool-cases (x == c)) [
    | inl a ↦ inl (ground (arith, a, h))
    | inr a ↦ inr (ground (arith, a, k))
  ]

  Searching-drop :
      {start c : ℕ} {pending seen : List ℕ}
      → contains seen c ≡ true
      → Searching start (c ∷ pending) seen
      → Searching start pending seen
  Searching-drop {start} {c} {pending} {seen} h s = record {
    reached = λ x k. s.reached x (ground (arith, k));
    begun = Known-drop c pending seen start h s.begun;
    clear = s.clear;
    causes = λ x y k e. Known-drop c pending seen y h (s.causes x y k e);
    contexts = λ x y k e. Known-drop c pending seen y h (s.contexts x y k e);
  }

  -- What is pending after a turn that finds nothing.
  abbrev next_pending : ℕ → List ℕ → List ℕ
  next_pending c pending = push (E.cause c) (push (E.context c) pending)

  Known-turn :
      (c : ℕ) (pending seen : List ℕ) (x : ℕ)
      → Known (c ∷ pending) seen x
      → Known (next_pending c pending) (c ∷ seen) x
  Known-turn c pending seen x (inl k) = inl (ground (arith, k))
  Known-turn c pending seen x (inr k) = elim (Bool-cases (x == c)) [
    | inl a ↦ inl (ground (arith, a))
    | inr a ↦ inr (
        contains-push (E.cause c) (push (E.context c) pending) x
          (contains-push (E.context c) pending x (ground (arith, a, k))))
  ]

  push-reached :
      (start : ℕ) (o : Option ℕ) (l : List ℕ)
      → ((y : ℕ) → o ≡ some y → Reaches start y)
      → ((x : ℕ) → contains l x ≡ true → Reaches start x)
      → (x : ℕ) → contains (push o l) x ≡ true
      → Reaches start x
  unfolding push
  push-reached start none l f g x h = g x h
  push-reached start (some y) l f g x h = elim (Bool-cases (x == y)) [
    | inl a ↦ subst (λ z. Reaches start z) (sym ((==_iff x y).0 a)) (f y refl)
    | inr a ↦ g x (ground (arith, a, h))
  ]

  Searching-turn :
      {start c : ℕ} {pending seen : List ℕ}
      → lookup c errors ≡ none
      → Searching start (c ∷ pending) seen
      → Searching start (next_pending c pending) (c ∷ seen)
  Searching-turn {start} {c} {pending} {seen} h s = record {
    reached =
        let r = s.reached c (ground arith) in
        push-reached start (E.cause c) (push (E.context c) pending) (λ y e. by_cause r e)
          (push-reached start (E.context c) pending (λ y e. by_context r e)
            (λ x k. s.reached x (ground (arith, k))));
    begun = Known-turn c pending seen start s.begun;
    clear = λ x k. elim (Bool-cases (x == c)) [
      | inl a ↦ subst (λ z. lookup z errors ≡ none) (sym ((==_iff x c).0 a)) h
      | inr a ↦ s.clear x (ground (arith, a, k))
    ];
    causes = λ x y k e. elim (Bool-cases (x == c)) [
      | inl a ↦ inr (
          push-mem (E.cause c) (push (E.context c) pending) y
            (subst (λ z. E.cause z ≡ some y) ((==_iff x c).0 a) e))
      | inr a ↦ Known-turn c pending seen y (s.causes x y (ground (arith, a, k)) e)
    ];
    contexts = λ x y k e. elim (Bool-cases (x == c)) [
      | inl a ↦ inr (
          contains-push (E.cause c) (push (E.context c) pending) y (
            push-mem (E.context c) pending y
              (subst (λ z. E.context z ≡ some y) ((==_iff x c).0 a) e)))
      | inr a ↦ Known-turn c pending seen y (s.contexts x y (ground (arith, a, k)) e)
    ];
  }

  module _ (n : ℕ) (small_cause : (x y : ℕ) → E.cause x ≡ some y → y < n)
      (small_context : (x y : ℕ) → E.context x ≡ some y → y < n) where
    All-push :
        (o : Option ℕ) (l : List ℕ)
        → ((y : ℕ) → o ≡ some y → y < n)
        → All (λ x. x < n) l
        → All (λ x. x < n) (push o l)
    unfolding push
    All-push none l f a = a
    All-push (some y) l f a = (f y refl, a)

    length-push : (o : Option ℕ) (l : List ℕ) → length (push o l) ≤ length l + 1
    unfolding push
    length-push none l = omega arith
    length-push (some y) l = omega arith

    search-Found :
        (start fuel : ℕ) (pending seen : List ℕ)
        → Searching start pending seen
        → All (λ x. x < n) pending
        → length pending + 2 * unseen n seen < fuel
        → (r : Option (ℕ × ℕ)) × (search E errors fuel pending seen ≡ some r) × Found start r
    unfolding search
    search-Found start zero pending seen s a h = ground (arith, h)
    search-Found start (suc fuel) [] seen s a h =
        (none, refl, λ (x, t, r, l). absurd (ground (arith, s.clear x (all_seen s r), l)))
    search-Found start (suc fuel) (c ∷ pending) seen s (small, a) h =
        elim (Bool-cases (contains seen c)) [
          | inl k ↦
              let (r, e, f) =
                search-Found start fuel pending seen (Searching-drop k s) a (omega (arith, h)) in
              (r, ground (arith, k, e), f)
          | inr k ↦ elim (Option-cases (lookup c errors)) [
            | inr (traceback, l) ↦
                (some (c, traceback), ground (arith, k, l), (s.reached c (ground arith), l))
            | inl l ↦
                let fewer = unseen-cons n c seen small k in
                let one = length-push (E.cause c) (push (E.context c) pending) in
                let two = length-push (E.context c) pending in
                let (r, e, f) =
                  search-Found start fuel (next_pending c pending) (c ∷ seen) (Searching-turn l s)
                    (All-push _ _ (small_cause c) (All-push _ _ (small_context c) a))
                    (omega (arith, h, fewer, one, two)) in
                (r, ground (arith, k, l, e), f)
          ]
        ]

    unseen-le : (m : ℕ) → unseen m [] ≤ m
    unfolding unseen
    unseen-le zero = omega arith
    unseen-le (suc m) = omega (arith, unseen-le m)

    -- Where the exceptions are numbered below n and the fuel is more than 2n + 1, `write_from_stream`
    -- ends where the request raised: with an error that the caller's stream raised in it, reached from
    -- the request's exception by causes and contexts, or with the request's exception itself, and then
    -- no error of the stream is reached.
    pub write_from_stream-Raises :
        (fuel exc : ℕ)
        → exc < n
        → 2 * n + 1 < fuel
        → (x : ℕ) × (write_from_stream E errors fuel (err exc) ≡ some (err x))
          × (Found exc none × (x ≡ exc) ⊎ ((traceback : ℕ) × Found exc (some (x, traceback))))
    unfolding write_from_stream original_in
    write_from_stream-Raises fuel exc small h =
        let le = unseen-le n in
        let s : Searching exc (exc ∷ []) [] = record {
          reached =
              λ x k. subst (λ z. Reaches exc z) (sym ((==_iff x exc).0 (ground (arith, k)))) itself;
          begun = inr (ground arith);
          clear = λ x k. ground (arith, k);
          causes = λ x y k e. ground (arith, k);
          contexts = λ x y k e. ground (arith, k);
        } in
        let (r, e, f) = search-Found exc fuel (exc ∷ []) [] s (small, tt) (omega (arith, h, le)) in
        by r e f
      where
        by :
            (r : Option (ℕ × ℕ))
            → search E errors fuel (exc ∷ []) [] ≡ some r
            → Found exc r
            → (x : ℕ) × (write_from_stream E errors fuel (err exc) ≡ some (err x))
              × (Found exc none × (x ≡ exc) ⊎ ((traceback : ℕ) × Found exc (some (x, traceback))))
        by none e f = (exc, ground (arith, e), inl (f, refl))
        by (some (x, traceback)) e f = elim (Bool-cases (x == exc)) [
          | inl a ↦ (x, ground (arith, e, a, ==_iff x exc), inr (traceback, f))
          | inr a ↦ (x, ground (arith, e, a), inr (traceback, f))
        ]
