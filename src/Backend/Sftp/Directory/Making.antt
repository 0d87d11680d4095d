-- ===== src/Backend/Sftp/Directory/Making.antt =====
-- storage/backends/sftp/sftp_directory.py, mkdir: what there is when it returns.
use mountainash_transport.Prelude.{
  ℕ, zero, suc, ◌<◌, length, ◌≡◌, refl, ap, ◌∙◌, subst, ◌⊎◌, inl, inr, Bool, true, false, ◌&&◌,
  some, List, [], ◌∷◌, Result, ok, err, Text, text_eq, ◌is◌, arith, Bool-cases, Result-cases, All,
}
use mountainash_transport.Errors.{Error}
use mountainash_transport.Backend.Sftp.Failures.{SftpError, is_os, is_not_found}
use mountainash_transport.Backend.Sftp.Directory.{
  Mode, missing_mode, directory_mode, other_mode, Server, Answer, Refusal, is_empty, parents_of,
  recheck, create, make_directory, make_all, mkdir,
}

-- A server whose answers are true of it, on which no directory is removed meanwhile; `Lacks`, that it
-- may leave a mode out.
pub record Honest {S : Type 0} (V : Server S) (IsDir : Text → S → Type 0) (Lacks : Type 0)
    : Type 0 where
  pub keeps_stat : (d e : Text) (s : S) → IsDir d s → IsDir d (V.stat e s).server
  pub keeps_make : (d e : Text) (s : S) → IsDir d s → IsDir d (V.make e s).server
  pub says :
      (d : Text) (s : S) → (V.stat d s).result ≡ ok directory_mode → IsDir d (V.stat d s).server
  pub lacks : (d : Text) (s : S) → (V.stat d s).result ≡ ok missing_mode → Lacks
  pub makes : (d : Text) (s : S) → (V.make d s).result ≡ ok tt → IsDir d (V.make d s).server

module _ {S : Type 0} (V : Server S) (IsDir : Text → S → Type 0) (Lacks : Type 0)
    (h : Honest V IsDir Lacks) where
  create-keeps : (d e : Text) (s : S) → IsDir d s → IsDir d (create V e s).server
  unfolding create recheck
  create-keeps d e s i = elim (Result-cases (V.make e s).result) [
    | inl (u, a) ↦ subst (λ r. IsDir d r) (ground (arith, a)) (h.keeps_make d e s i)
    | inr (x, a) ↦ elim (Bool-cases (x.is_plain && x.may_exist)) [
      | inl b ↦
          subst (λ r. IsDir d r) (ground (arith, a, b))
            (h.keeps_stat d e (V.make e s).server (h.keeps_make d e s i))
      | inr b ↦ subst (λ r. IsDir d r) (ground (arith, a, b)) (h.keeps_make d e s i)
    ]
  ]

  recheck-Made :
      (d : Text) (x : Refusal) (s : S)
      → (recheck V d x s).result ≡ ok tt
      → IsDir d (recheck V d x s).server
  unfolding recheck
  recheck-Made d x s k = h.says d s (by (V.stat d s).result refl)
    where
      by :
          (r : Result SftpError Mode)
          → (V.stat d s).result ≡ r
          → (V.stat d s).result ≡ ok directory_mode
      by (ok directory_mode) e = e
      by (ok missing_mode) e = absurd (ground (arith, e, k))
      by (ok other_mode) e = absurd (ground (arith, e, k))
      by (err y) e = elim (Bool-cases (is_os y)) [
        | inl b ↦ absurd (ground (arith, e, k, b))
        | inr b ↦ absurd (ground (arith, e, k, b))
      ]

  create-Made : (d : Text) (s : S) → (create V d s).result ≡ ok tt → IsDir d (create V d s).server
  unfolding create
  create-Made d s k = elim (Result-cases (V.make d s).result) [
    | inl (u, a) ↦ subst (λ r. IsDir d r) (ground (arith, a)) (h.makes d s (ground (arith, a)))
    | inr (x, a) ↦ elim (Bool-cases (x.is_plain && x.may_exist)) [
      | inl b ↦
          subst (λ r. IsDir d r) (ground (arith, a, b))
            (recheck-Made d x (V.make d s).server (ground (arith, a, b, k)))
      | inr b ↦ absurd (ground (arith, a, b, k))
    ]
  ]

  -- What is true of a directory that was passed.
  abbrev Passed : Text → Text → S → Type 0
  Passed path d s = IsDir d s ⊎ (Lacks × ((d is path) ≡ false))

  make_directory-keeps :
      (d e : Text) (b : Bool) (s : S) → IsDir d s → IsDir d (make_directory V e b s).server
  unfolding make_directory
  make_directory-keeps d e b s i = by (V.stat e s).result refl b
    where
      seen : IsDir d (V.stat e s).server
      seen = h.keeps_stat d e s i

      made : IsDir d (create V e (V.stat e s).server).server
      made = create-keeps d e (V.stat e s).server seen

      by :
          (r : Result SftpError Mode)
          → (V.stat e s).result ≡ r
          → (b : Bool) → IsDir d (make_directory V e b s).server
      by (ok directory_mode) a b = subst (λ r. IsDir d r) (ground (arith, a)) seen
      by (ok other_mode) a b = subst (λ r. IsDir d r) (ground (arith, a)) seen
      by (ok missing_mode) a true = subst (λ r. IsDir d r) (ground (arith, a)) made
      by (ok missing_mode) a false = subst (λ r. IsDir d r) (ground (arith, a)) seen
      by (err y) a b = elim (Bool-cases (is_os y && is_not_found y)) [
        | inl c ↦ subst (λ r. IsDir d r) (ground (arith, a, c)) made
        | inr c ↦ subst (λ r. IsDir d r) (ground (arith, a, c)) seen
      ]

  make_directory-Made :
      (path d : Text) (s : S)
      → (make_directory V d (d is path) s).result ≡ ok tt
      → Passed path d (make_directory V d (d is path) s).server
  unfolding make_directory
  make_directory-Made path d s k = by (V.stat d s).result refl
    where
      made :
          (create V d (V.stat d s).server).result ≡ ok tt
          → IsDir d (create V d (V.stat d s).server).server
      made = create-Made d (V.stat d s).server

      by :
          (r : Result SftpError Mode)
          → (V.stat d s).result ≡ r
          → Passed path d (make_directory V d (d is path) s).server
      by (ok directory_mode) a = inl (subst (λ r. IsDir d r) (ground (arith, a)) (h.says d s a))
      by (ok other_mode) a = absurd (ground (arith, a, k))
      by (ok missing_mode) a = elim (Bool-cases (d is path)) [
        | inl c ↦
            inl (subst (λ r. IsDir d r) (ground (arith, a, c)) (made (ground (arith, a, c, k))))
        | inr c ↦ inr (h.lacks d s a, c)
      ]
      by (err y) a = elim (Bool-cases (is_os y && is_not_found y)) [
        | inl c ↦
            inl (subst (λ r. IsDir d r) (ground (arith, a, c)) (made (ground (arith, a, c, k))))
        | inr c ↦ absurd (ground (arith, a, c, k))
      ]

  All-keeps :
      (path e : Text) (b : Bool) (s : S) (ds : List Text)
      → All (λ d. Passed path d s) ds
      → All (λ d. Passed path d (make_directory V e b s).server) ds
  All-keeps path e b s [] a = tt
  All-keeps path e b s (d ∷ ds) (inl i, a) =
      (inl (make_directory-keeps d e b s i), All-keeps path e b s ds a)
  All-keeps path e b s (d ∷ ds) (inr l, a) = (inr l, All-keeps path e b s ds a)

  make_all-Made :
      (path : Text) (ds : List Text) (s : S)
      → (make_all V path ds s).result ≡ ok tt
      → All (λ d. Passed path d (make_all V path ds s).server) ds
  unfolding make_all
  make_all-Made path [] s k = tt
  make_all-Made path (d ∷ ds) s k = elim (Result-cases (make_all V path ds s).result) [
    | inr (x, a) ↦ absurd (ground (arith, a, k))
    | inl (u, a) ↦
        let above = (make_all V path ds s).server in
        subst (λ r. All (λ e. Passed path e r) (d ∷ ds)) (ground (arith, a))
          (
            make_directory-Made path d above (ground (arith, a, k)),
            All-keeps path d (d is path) above ds (make_all-Made path ds s (ground (arith, a))),
          )
  ]

  mkdir-Made :
      (fuel : ℕ) (strip : Text → Text) (path : Text) (above : List Text) (s : S)
      (a : Answer S Error (Unit {0}))
      → is_empty path ≡ false
      → parents_of V fuel (V.dirname (strip path)) path ≡ some above
      → mkdir V fuel strip path true s ≡ some a
      → a.result ≡ ok tt
      → IsDir path a.server × All (λ d. IsDir d a.server ⊎ Lacks) above
  unfolding mkdir
  mkdir-Made fuel strip path above s a e p k r =
      let same : make_all V path (path ∷ above) s ≡ a = ground (arith, e, p, k) in
      let (own, rest) = make_all-Made path (path ∷ above) s (ap (λ x. x.result) same ∙ r) in
      subst (λ x. IsDir path x.server × All (λ d. IsDir d x.server ⊎ Lacks) above) same
        (itself own, weaken above rest)
    where
      itself :
          Passed path path (make_all V path (path ∷ above) s).server
          → IsDir path (make_all V path (path ∷ above) s).server
      itself (inl i) = i
      itself (inr (l, n)) = absurd (ground (arith, n, (text_eq.beq_iff path path).1 refl))

      weaken :
          (ds : List Text)
          → All (λ d. Passed path d (make_all V path (path ∷ above) s).server) ds
          → All (λ d. IsDir d (make_all V path (path ∷ above) s).server ⊎ Lacks) ds
      weaken [] q = tt
      weaken (d ∷ ds) (inl i, q) = (inl i, weaken ds q)
      weaken (d ∷ ds) (inr (l, n), q) = (inr l, weaken ds q)

  parents_of-Ends :
      ((p : Text) → is_empty p ≡ false → (V.dirname p ≡ p) ⊎ (length (V.dirname p) < length p))
      → (fuel : ℕ) (parent last : Text) → length parent < fuel
      → (above : List Text) × (parents_of V fuel parent last ≡ some above)
  unfolding parents_of
  parents_of-Ends shorter zero parent last k = ground (arith, k)
  parents_of-Ends shorter (suc fuel) [] last k = ([], refl)
  parents_of-Ends shorter (suc fuel) (c ∷ cs) last k = elim (Bool-cases ((c ∷ cs) is last)) [
    | inl a ↦ ([], ground (arith, a))
    | inr a ↦ elim (shorter (c ∷ cs) refl) [
      | inr l ↦
          let (above, e) =
            parents_of-Ends shorter fuel (V.dirname (c ∷ cs)) (c ∷ cs) (omega (arith, k, l)) in
          ((c ∷ cs) ∷ above, ground (arith, a, e))
      | inl l ↦ let e = again fuel l (omega (arith, k)) in ((c ∷ cs) ∷ [], ground (arith, a, e))
    ]
  ]
    where
      again :
          (f : ℕ)
          → V.dirname (c ∷ cs) ≡ c ∷ cs
          → 0 < f
          → parents_of V f (V.dirname (c ∷ cs)) (c ∷ cs) ≡ some []
      again zero l p = ground (arith, p)
      again (suc f) l p = ground (arith, l, (text_eq.beq_iff (V.dirname (c ∷ cs)) (c ∷ cs)).1 l)

  pub mkdir-Makes :
      (fuel : ℕ) (strip : Text → Text) (path : Text) (s : S)
      → ((p : Text) → is_empty p ≡ false → (V.dirname p ≡ p) ⊎ (length (V.dirname p) < length p))
      → is_empty path ≡ false
      → length (V.dirname (strip path)) < fuel
      → (above : List Text) × (a : Answer S Error (Unit {0})) × (parents_of V fuel
            (V.dirname (strip path))
            path
          ≡ some above)
        × (mkdir V fuel strip path true s ≡ some a)
        × (((x : Error) × (a.result ≡ err x))
            ⊎ (IsDir path a.server × All (λ d. IsDir d a.server ⊎ Lacks) above))
  unfolding mkdir
  mkdir-Makes fuel strip path s shorter e k =
      let (above, p) = parents_of-Ends shorter fuel (V.dirname (strip path)) path k in
      let a = make_all V path (path ∷ above) s in
      let m : mkdir V fuel strip path true s ≡ some a = ground (arith, e, p) in
      elim (Result-cases a.result) [
        | inr (x, r) ↦ (above, a, p, m, inl (x, r))
        | inl (u, r) ↦ (above, a, p, m, inr (mkdir-Made fuel strip path above s a e p m r))
      ]
