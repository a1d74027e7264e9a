-- ===== src/Hget.antt =====
-- hget.hpp: requests with libevent's client, and goUntil, which repeats them over several URLs. A request
-- that is made is a record of what libevent is given; its answer comes as an argument.
pub mod Rounds
pub mod Tests
use mathlib.Core.Option
use libglim.Base.{
  ℕ, zero, suc, ◌+◌, ◌-◌, ◌%◌, ◌^◌, ◌≡◌, Bool, true, false, ◌&&◌, Option, none, some, List, [], ◌∷◌,
  ◌++◌, leb, ltb, ◌==◌, if◌then◌else◌, length, get_elem?,
}
use libglim.Base.Int.{ℤ, pos}
use libglim.Itoa.{itoa, codes}

-- errno codes of Linux.
abbrev etimedout : ℕ
etimedout = 110

abbrev econnrefused : ℕ
econnrefused = 111

-- hgot; the body stands for the request too.
pub record Got : Type 0 where
  pub status : ℕ
  pub error_code : ℕ
  pub body : Option (List ℕ)

-- hgot::bodyLength and bodyData.
unfoldable pub body_length : Got → ℕ
body_length got = elim got.body [ none ↦ 0 | some bytes ↦ length bytes ]

unfoldable pub body_data : Got → List ℕ
body_data got = elim got.body [ none ↦ [] | some bytes ↦ bytes ]

-- hgot::cbody adds a terminator to the body each time; gbody is the whole body.
unfoldable pub cbody : Got → Got × List ℕ
cbody got = elim got.body [
  | none ↦ (got, 0 ∷ [])
  | some bytes ↦ (record got { body = some (bytes ++ 0 ∷ []) }, bytes ++ 0 ∷ [])
]

-- What hgetCB hands to the handler, from the request: none for a null one, else its response code and its
-- input buffer.
unfoldable pub finished : Option (ℕ × List ℕ) → Got
finished none = record { status = 0; error_code = etimedout; body = none }
finished (some (code, buffer)) =
    if code == 0
    then record { status = 0; error_code = econnrefused; body = none }
    else record { status = code; error_code = 0; body = some buffer }

pub record Uri : Type 0 where
  pub host : List ℕ
  pub port : Option ℕ
  pub path : List ℕ
  pub query : Option (List ℕ)

-- enum evhttp_cmd_type, as far as it is used here, and any other.
pub data Method : Type 0 where
  get post : Method
  other_method : ℕ → Method

-- evhttp_request before it is made.
pub record Request : Type 0 where
  pub headers : List (List ℕ × List ℕ)
  pub output : List ℕ

-- What evhttp_make_request is given.
pub record Made : Type 0 where
  pub host : List ℕ
  pub port : ℕ
  pub timeout : ℕ
  pub method : Method
  pub target : List ℕ
  pub request : Request

-- hget
pub record Client : Type 0 where
  pub builder : Option (Request → Request)
  pub method : Method

-- hget::hget
abbrev pub new_client : Client
new_client = record { builder = none; method = get }

-- setRequestBuilder
unfoldable pub set_request_builder : (Request → Request) → Client → Client
set_request_builder builder c = record c { builder = some builder }

abbrev with_header : List ℕ → List ℕ → Request → Request
with_header name value r = record r { headers = r.headers ++ (name, value) ∷ [] }

abbrev typed : Option (List ℕ) → Request → Request
typed none r = r
typed (some content_type) r = with_header (codes "Content-Type") content_type r

-- payload: the size of `str` is below 2 ^ 31.
unfoldable pub payload : List ℕ → Option (List ℕ) → Method → Client → Client
unfolding set_request_builder
payload str content_type method c =
    set_request_builder
      (λ r.
        let sized =
          with_header (codes "Content-Length") (itoa (pos (length str)) 10)
            (typed content_type r) in
        record sized { output = sized.output ++ str })
      (record c { method = method })

-- libevent: whether a header is taken, and whether a request is.
pub record Evhttp : Type 0 where
  pub add_header : List ℕ → List ℕ → Bool
  pub make_request : Made → Bool

abbrev port_or_80 : Option ℕ → ℕ
port_or_80 none = 80
port_or_80 (some port) = port

abbrev target_of : Uri → List ℕ
target_of uri = elim uri.query [ none ↦ uri.path | some qs ↦ uri.path ++ b'?' ∷ qs ]

abbrev built : Option (Request → Request) → Request → Request
built none r = r
built (some builder) r = builder r

abbrev sent_if : Bool → Made → Option Made
sent_if true made = some made
sent_if false made = none

-- go: none is an exception.
unfoldable pub go : Evhttp → Client → Uri → ℕ → Option Made
go ev c uri timeout =
    let made : Made = record {
      host = uri.host;
      port = port_or_80 uri.port;
      timeout = timeout;
      method = c.method;
      target = target_of uri;
      request = built c.builder (record { headers = (codes "Host", uri.host) ∷ []; output = [] });
    } in
    sent_if (ev.add_header (codes "Host") uri.host && ev.make_request made) made

-- What the handler of goUntil returns: a float that is 0, above 0 or neither.
pub data Answer (F : Type 0) : Type 0 where
  give_up at_once : Answer F
  after : F → Answer F

-- HgetUntilHandler
pub record Until (U : Type 0) : Type 0 where
  pub urls : List U
  pub request_num : ℕ
  pub next_url : ℕ

-- HgetUntilHandler::HgetUntilHandler
abbrev pub until_start : {U : Type 0} → List U → Until U
until_start urls = record { urls = urls; request_num = 0; next_url = 0 }

-- retry: the handler that is left, and the URL that go is called with; none is an access outside the vector,
-- or an int32_t that overflows.
unfoldable pub retry : {U : Type 0} → Until U → Until U × Option U
retry h =
    let next = (h.next_url + 1) % 2 ^ 8 in
    (
      record h {
        next_url = if leb (length h.urls) next then 0 else next;
        request_num = h.request_num + 1;
      },
      if ltb (h.request_num + 1) (2 ^ 31) then get_elem? h.urls h.next_url else none,
    )

-- `urlNum` of operator (), an uint8_t: the URL that the handler is told of.
unfoldable pub told_url : {U : Type 0} → Until U → Option U
told_url h =
    get_elem? h.urls
      (if h.next_url == 0 then (length h.urls + 2 ^ 64 - 1) % 2 ^ 8 else h.next_url - 1)

-- What operator () does with an answer: nothing, a request, or a timer that leads to one.
pub data Reaction (F U : Type 0) : Type 0 where
  stopped : Reaction F U
  asked : Until U × Option U → Reaction F U
  waiting : F → Until U → Reaction F U

abbrev pub react : {F U : Type 0} → Answer F → Until U → Reaction F U
react give_up h = stopped
react at_once h = asked (retry h)
react (after wait) h = waiting wait h

-- operator (): none is an access outside the vector.
unfoldable pub on_got :
    {F U : Type 0} → (Got → U → ℕ → Answer F) → Until U → Got → Option (Reaction F U)
on_got handler h got = elim (told_url h) [
  | none ↦ none
  | some url ↦ some (react (handler got url h.request_num) h)
]

abbrev pub asked_on :
    {F U : Type 0} → (F → Bool) → U → Reaction F U → Option (List U) → Option (List U)
asked_on timer url stopped rest = some (url ∷ [])
asked_on timer url (asked p) rest = Option.map (λ urls. url ∷ urls) rest
asked_on timer url (waiting wait h) rest =
    if timer wait then Option.map (λ urls. url ∷ urls) rest else some (url ∷ [])

-- goUntil, with what is got from one request after the other: the URLs that go is called with. `goes` says
-- of the number of a request and its URL whether go succeeds, and `timer` of a wait whether event_base_once
-- does: an exception of either ends it. A wait ends with hgetUntilRetryCB, which retries. none is undefined
-- behaviour.
unfoldable pub run_until :
    {F U : Type 0}
    → (ℕ → U → Bool)
    → (F → Bool)
    → (Got → U → ℕ → Answer F)
    → Until U × Option U
    → List Got
    → Option (List U)
run_until goes timer handler (h, none) gots = none
run_until goes timer handler (h, some url) [] = some (url ∷ [])
run_until goes timer handler (h, some url) (got ∷ gots) =
    let rest = run_until goes timer handler (retry h) gots in
    if goes h.request_num url
    then elim (on_got handler h got) [
      | none ↦ none
      | some reaction ↦ asked_on timer url reaction rest
    ]
    else some (url ∷ [])
