-- ===== src/Http/Errors/Classes.antt =====
-- The class that a status code gets.
use mountainash_transport.Prelude.{
  ℕ, ◌≡◌, ◌↔◌, Bool, true, false, not, ◌&&◌, ◌||◌, leb, ltb, Option, none, some, arith,
}
use mountainash_transport.Http.Errors.{
  HttpClass, client, server, rate_limit, parent, map_status_to_error, is_class,
}

-- issubclass(c, d), by the chain of base classes, which has at most four members.
pub descends : HttpClass → HttpClass → Bool
unfolding parent
descends c d = is_class c d || elim (parent c) [
  | none ↦ false
  | some b ↦ is_class b d || elim (parent b) [
    | none ↦ false
    | some a ↦ is_class a d || elim (parent a) [ none ↦ false | some z ↦ is_class z d ]
  ]
]

pub class_under : HttpClass → Option HttpClass → Bool
unfolding descends
class_under d none = false
class_under d (some c) = descends c d

pub is_none : Option HttpClass → Bool
is_none none = true
is_none (some c) = false

-- Where the class of a status stands in the hierarchy.
pub record IsClassified (status : ℕ) (result : Option HttpClass) : Type 0 where
  pub client_error : class_under client result ≡ (leb 400 status && ltb status 500)
  pub server_error : class_under server result ≡ (leb 500 status && ltb status 600)
  pub refused : is_none result ≡ not (leb 400 status && ltb status 600)
  pub limited : (result ≡ some rate_limit) ↔ (status ≡ 429)

-- A status gets a subclass of the client error exactly where it is a 4xx code, one of the server
-- error exactly where it is a 5xx code, none exactly where it is neither, and the class of rate
-- limits exactly where it is 429.
pub map_status_to_error-IsClassified :
    (status : ℕ) → IsClassified status (map_status_to_error status)
unfolding map_status_to_error class_under is_class is_none
map_status_to_error-IsClassified status = record {
  client_error = ground arith;
  server_error = ground arith;
  refused = ground arith;
  limited = ground arith;
}
