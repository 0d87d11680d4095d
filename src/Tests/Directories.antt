-- ===== src/Tests/Directories.antt =====
-- storage/backends/sftp/sftp_directory.py: a run of `mkdir`.
use mountainash_transport.Prelude.{
  ◌<◌, ◌≡◌, refl, ◌⊎◌, inl, inr, true, false, some, List, [], ◌∷◌, ok, err, length, if◌then◌else◌,
  Text, codes, text_eq, ◌is◌, contains, arith, Bool-cases, All,
}
use mountainash_transport.Errors.{Error}
use mountainash_transport.Backend.Sftp.{file_not_found, is_os, is_not_found}
use mountainash_transport.Backend.Sftp.Directory.{
  directory_mode, Server, Answer, is_empty, parents_of, create, make_directory, make_all, mkdir,
}
use mountainash_transport.Backend.Sftp.Directory.Making.{Honest, mkdir-Makes}

abbrev up : Text → Text
up path =
    if path is codes "/a/b" then codes "/a" else if path is codes "/a" then codes "/" else path

-- A server by its directories.
abbrev server : Server (List Text)
server = record {
  stat = λ d s. record {
    result = if contains s d then ok directory_mode else err file_not_found;
    server = s;
  };
  make = λ d s. record { result = ok tt; server = d ∷ s };
  dirname = up;
}

abbrev HasDir : Text → List Text → Type 0
HasDir d s = contains s d ≡ true

up_shorter :
    (p : Text)
    → is_empty p ≡ false
    → (server.dirname p ≡ p) ⊎ (length (server.dirname p) < length p)
up_shorter p e = elim (Bool-cases (p is codes "/a/b")) [
  | inl a ↦ inr (ground (arith, a, (text_eq.beq_iff p (codes "/a/b")).0 a))
  | inr a ↦ elim (Bool-cases (p is codes "/a")) [
    | inl b ↦ inr (ground (arith, a, b, (text_eq.beq_iff p (codes "/a")).0 b))
    | inr b ↦ inl (ground (arith, a, b))
  ]
]

server_honest : Honest server HasDir (true ≡ false)
server_honest = record {
  keeps_stat = λ d e s i. i;
  keeps_make = λ d e s i. ground (arith, i);
  says = λ d s i. elim (Bool-cases (contains s d)) [
    | inl a ↦ a
    | inr a ↦ absurd (ground (arith, a, i))
  ];
  lacks = λ d s i. elim (Bool-cases (contains s d)) [
    | inl a ↦ ground (arith, a, i)
    | inr a ↦ ground (arith, a, i)
  ];
  makes = λ d s i. ground (arith, (text_eq.beq_iff d d).1 refl);
}

makes_both :
    mkdir server 9 (λ p. p) (codes "/a/b") true (codes "/" ∷ [])
    ≡ some (record { result = ok tt; server = codes "/a/b" ∷ codes "/a" ∷ codes "/" ∷ [] })
unfolding mkdir parents_of make_all make_directory create is_os is_not_found
makes_both = refl

mkdir-Makes_example :
    (above : List Text) × (a : Answer (List Text) Error (Unit {0})) × (parents_of server 9
        (codes "/a")
        (codes "/a/b")
      ≡ some above)
    × (mkdir server 9 (λ p. p) (codes "/a/b") true (codes "/" ∷ []) ≡ some a)
    × (((x : Error) × (a.result ≡ err x))
        ⊎ (HasDir (codes "/a/b") a.server × All (λ d. HasDir d a.server ⊎ (true ≡ false)) above))
mkdir-Makes_example =
    mkdir-Makes server HasDir (true ≡ false) server_honest 9 (λ p. p) (codes "/a/b")
      (codes "/" ∷ []) up_shorter refl (omega arith)
