-- ===== src/Status.antt =====
-- csi_http/csi_http.h and csi_http.cpp: the status codes of a reply and the methods of a request,
-- with their names. `unlisted` is a value that a cast from a number makes and that has no
-- enumerator.
pub mod Names
pub mod Debug
mod Tests
use csi_http.Base.{◌==◌, get_elem?, if◌then◌else◌, List, codes, Option, none, [], ◌∷◌, ℕ, Bytes}

pub data StatusType : Type 0 where
  undefined continue_with_request switching_protocols processing checkpoint uri_to_long ok created
        accepted processed_non_authorative no_content reset_content partial_content multi_status
        already_reported im_used multiple_choices moved_permanently moved_temporarily see_other
        not_modified use_proxy switch_proxy temporary_redirect resume_incomplete bad_request
        unauthorized forbidden not_found precondition_failed internal_server_error not_implemented
        bad_gateway service_unavailable :
      StatusType
  unlisted : ℕ → StatusType

-- The number that stands for the enumerator.
unfoldable pub code : StatusType → ℕ
code undefined = 0
code continue_with_request = 100
code switching_protocols = 101
code processing = 102
code checkpoint = 103
code uri_to_long = 122
code ok = 200
code created = 201
code accepted = 202
code processed_non_authorative = 203
code no_content = 204
code reset_content = 205
code partial_content = 206
code multi_status = 207
code already_reported = 208
code im_used = 226
code multiple_choices = 300
code moved_permanently = 301
code moved_temporarily = 302
code see_other = 303
code not_modified = 304
code use_proxy = 305
code switch_proxy = 306
code temporary_redirect = 307
code resume_incomplete = 308
code bad_request = 400
code unauthorized = 401
code forbidden = 403
code not_found = 404
code precondition_failed = 412
code internal_server_error = 500
code not_implemented = 501
code bad_gateway = 502
code service_unavailable = 503
code (unlisted n) = n

abbrev pub all_statuses : List StatusType
all_statuses =
    undefined ∷ continue_with_request ∷ switching_protocols ∷ processing ∷ checkpoint ∷ uri_to_long
    ∷ ok ∷ created ∷ accepted ∷ processed_non_authorative ∷ no_content ∷ reset_content
    ∷ partial_content ∷ multi_status ∷ already_reported ∷ im_used ∷ multiple_choices
    ∷ moved_permanently ∷ moved_temporarily ∷ see_other ∷ not_modified ∷ use_proxy ∷ switch_proxy
    ∷ temporary_redirect ∷ resume_incomplete ∷ bad_request ∷ unauthorized ∷ forbidden ∷ not_found
    ∷ precondition_failed ∷ internal_server_error ∷ not_implemented ∷ bad_gateway
    ∷ service_unavailable ∷ []

find_code : ℕ → List StatusType → StatusType
unfolding code
find_code n [] = unlisted n
find_code n (s ∷ ss) = if code s == n then s else find_code n ss

-- The cast `(status_type) n`.
unfoldable pub of_code : ℕ → StatusType
unfolding find_code
of_code n = find_code n all_statuses

-- `to_string(status_type)`, over `boost::lexical_cast` of the number.
unfoldable pub status_name : (ℕ → Bytes) → StatusType → Bytes
unfolding code
status_name lexical_cast ok = codes "ok"
status_name lexical_cast created = codes "created"
status_name lexical_cast accepted = codes "accepted"
status_name lexical_cast no_content = codes "no_content"
status_name lexical_cast multiple_choices = codes "multiple_choices"
status_name lexical_cast moved_permanently = codes "moved_permanently"
status_name lexical_cast moved_temporarily = codes "moved_temporarily"
status_name lexical_cast not_modified = codes "not_modified"
status_name lexical_cast bad_request = codes "bad_request"
status_name lexical_cast unauthorized = codes "unauthorized"
status_name lexical_cast forbidden = codes "forbidden"
status_name lexical_cast not_found = codes "not_found"
status_name lexical_cast precondition_failed = codes "precondition_failed"
status_name lexical_cast internal_server_error = codes "internal_server_error"
status_name lexical_cast not_implemented = codes "not_implemented"
status_name lexical_cast bad_gateway = codes "bad_gateway"
status_name lexical_cast service_unavailable = codes "service_unavailable"
status_name lexical_cast s = lexical_cast (code s)

pub data MethodT : Type 0 where
  delete_ get head post put connect options trace copy lock mkcol move propfind proppatch search
        unlock report mkactivity checkout merge msearch notify subscribe unsubscribe patch purge :
      MethodT
  unlisted : ℕ → MethodT

unfoldable pub number : MethodT → ℕ
number delete_ = 0
number get = 1
number head = 2
number post = 3
number put = 4
number connect = 5
number options = 6
number trace = 7
number copy = 8
number lock = 9
number mkcol = 10
number move = 11
number propfind = 12
number proppatch = 13
number search = 14
number unlock = 15
number report = 16
number mkactivity = 17
number checkout = 18
number merge = 19
number msearch = 20
number notify = 21
number subscribe = 22
number unsubscribe = 23
number patch = 24
number purge = 25
number (unlisted n) = n

abbrev pub method_strings : List Bytes
method_strings =
    codes "DELETE"
    ∷ codes "GET"
    ∷ codes "HEAD"
    ∷ codes "POST"
    ∷ codes "PUT"
    ∷ codes "CONNECT"
    ∷ codes "OPTIONS"
    ∷ codes "TRACE"
    ∷ codes "COPY"
    ∷ codes "LOCK"
    ∷ codes "MKCOL"
    ∷ codes "MOVE"
    ∷ codes "PROPFIND"
    ∷ codes "PROPPATCH"
    ∷ codes "SEARCH"
    ∷ codes "UNLOCK"
    ∷ codes "REPORT"
    ∷ codes "MKACTIVITY"
    ∷ codes "CHECKOUT"
    ∷ codes "MERGE"
    ∷ codes "MSEARCH"
    ∷ codes "NOTIFY"
    ∷ codes "SUBSCRIBE"
    ∷ codes "UNSUBSCRIBE"
    ∷ codes "PATCH"
    ∷ codes "PURGE"
    ∷ []

-- `to_string(method_t)`. `none` is a read past the end of the array.
unfoldable pub method_name : MethodT → Option Bytes
unfolding number
method_name m = get_elem? method_strings (number m)

abbrev pub all_methods : List MethodT
all_methods =
    delete_ ∷ get ∷ head ∷ post ∷ put ∷ connect ∷ options ∷ trace ∷ copy ∷ lock ∷ mkcol ∷ move
    ∷ propfind ∷ proppatch ∷ search ∷ unlock ∷ report ∷ mkactivity ∷ checkout ∷ merge ∷ msearch
    ∷ notify ∷ subscribe ∷ unsubscribe ∷ patch ∷ purge ∷ []

find_number : ℕ → List MethodT → MethodT
unfolding number
find_number n [] = unlisted n
find_number n (m ∷ ms) = if number m == n then m else find_number n ms

-- The cast `(method_t) n`.
unfoldable pub of_number : ℕ → MethodT
unfolding find_number
of_number n = find_number n all_methods
