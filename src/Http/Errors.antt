-- ===== src/Http/Errors.antt =====
-- _core/http/errors.py: the HTTP error classes, their hierarchy, and the class of a status code.
pub mod Classes
use mountainash_transport.Prelude.{
  ℕ, Bool, true, false, ◌&&◌, Option, none, some, List, ltb, leb, ◌==◌, if◌then◌else◌,
}

pub data HttpClass : Type 0 where
  transport response client not_found authentication forbidden rate_limit conflict : HttpClass
  server bad_gateway service_unavailable gateway_timeout : HttpClass
  connection timeout redirect protocol request decode : HttpClass

-- The base class, where it is one of these.
unfoldable pub parent : HttpClass → Option HttpClass
parent transport = none
parent response = some transport
parent client = some response
parent not_found = some client
parent authentication = some client
parent forbidden = some client
parent rate_limit = some client
parent conflict = some client
parent server = some response
parent bad_gateway = some server
parent service_unavailable = some server
parent gateway_timeout = some server
parent connection = some transport
parent timeout = some transport
parent redirect = some transport
parent protocol = some transport
parent request = some transport
parent decode = some transport

-- `map_status_to_error`; `none` is the `ValueError`.
unfoldable pub map_status_to_error : ℕ → Option HttpClass
map_status_to_error status =
    if status == 401
    then some authentication
    else if status == 403
    then some forbidden
    else if status == 404
    then some not_found
    else if status == 409
    then some conflict
    else if status == 429
    then some rate_limit
    else if status == 502
    then some bad_gateway
    else if status == 503
    then some service_unavailable
    else if status == 504
    then some gateway_timeout
    else if leb 400 status && ltb status 500
    then some client
    else if leb 500 status && ltb status 600
    then some server
    else none

rank : HttpClass → ℕ
rank transport = 0
rank response = 1
rank client = 2
rank not_found = 3
rank authentication = 4
rank forbidden = 5
rank rate_limit = 6
rank conflict = 7
rank server = 8
rank bad_gateway = 9
rank service_unavailable = 10
rank gateway_timeout = 11
rank connection = 12
rank timeout = 13
rank redirect = 14
rank protocol = 15
rank request = 16
rank decode = 17

unfoldable pub is_class : HttpClass → HttpClass → Bool
unfolding rank
is_class c d = rank c == rank d
