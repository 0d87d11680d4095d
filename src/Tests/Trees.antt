-- ===== src/Tests/Trees.antt =====
-- Examples of `_check_tree` of location.py.
use mountainash_transport.Prelude.{◌≡◌, refl, ap, true, some, [], ◌∷◌, codes, text_eq, ok}
use mountainash_transport.Location.Policy.{confine_local}
use mountainash_transport.Location.Schemes.{identify_scheme}
use mountainash_transport.Location.Tree.{walk, all_inside, entries, confine_tree}
use mountainash_transport.Location.Tree.Walk.{IsOneTree, at_top, below, walk-inside}
use mountainash_transport.Tests.Locations.{platform, policy}

platform-IsOneTree : IsOneTree platform
platform-IsOneTree = record {
  scanned_alike = λ d e same. ap platform.scandir same;
  joined_alike = λ d e name same. ap (λ t. platform.join t name) same;
}

-- The directory "r" has a directory "s" and a file "f".
walk-inside_example :
    all_inside platform (codes "r") (codes "rs") (entries platform (codes "rs")) ≡ true
walk-inside_example =
    walk-inside platform 9 (codes "r") (codes "r") (codes "rs") (codes "rs" ∷ codes "r" ∷ [])
      platform-IsOneTree (unfold walk in refl) (below (codes "r") (codes "s") at_top refl)

confine_tree_run : confine_tree platform 9 (codes "s") (some policy) ≡ some (ok (codes "rs"))
unfolding confine_tree confine_local identify_scheme
confine_tree_run = refl
