-- ===== src/Driver/Endpoints.antt =====
-- driver/hid-flydigi.c, `flydigi_probe`: the choice of the endpoints and the filling of the URBs.
use flydigi_vader.Base.{
  ℕ, ◌≡◌, refl, Bool, false, not, ◌&&◌, List, [], ◌∷◌, Option, none, some, is_some, if◌then◌else◌,
  arith,
}

-- An endpoint: whether it is an interrupt endpoint to the host or from it, its address and interval.
pub record Endpoint : Type 0 where
  pub is_int_in : Bool
  pub is_int_out : Bool
  pub address : ℕ
  pub interval : ℕ

-- `ep_in` and `ep_out`
abbrev pub Endpoints : Type 0
Endpoints = Option Endpoint × Option Endpoint

-- A round of the loop over the endpoints.
unfoldable pub take_endpoint : Endpoint → Endpoints → Endpoints
take_endpoint ep (ep_in, ep_out) =
    if ep.is_int_in && not (is_some ep_in)
    then (some ep, ep_out)
    else if ep.is_int_out && not (is_some ep_out)
    then (ep_in, some ep)
    else (ep_in, ep_out)

unfoldable pub take_endpoints : List Endpoint → Endpoints → Endpoints
take_endpoints [] eps = eps
take_endpoints (ep ∷ rest) eps = take_endpoints rest (take_endpoint ep eps)

unfoldable pub choose_endpoints : List Endpoint → Endpoints
unfolding take_endpoints
choose_endpoints eps = take_endpoints eps (none, none)

-- What an URB is filled with: its endpoint's address, the size of its buffer, and the interval. Both
-- use the DMA address of the buffer that was allocated for them.
pub record UrbSetup : Type 0 where
  pub pipe : ℕ
  pub buffer_size : ℕ
  pub interval : ℕ

-- `usb_fill_int_urb` of `irq_in`, and of `irq_out` where that was allocated.
unfoldable pub fill_irq_in : Endpoint → UrbSetup
fill_irq_in ep_in = record { pipe = ep_in.address; buffer_size = 32; interval = ep_in.interval }

unfoldable pub fill_irq_out : Option Endpoint → Bool → Option UrbSetup
fill_irq_out none allocated = none
fill_irq_out (some ep_out) allocated =
    if allocated
    then some (record { pipe = ep_out.address; buffer_size = 8; interval = ep_out.interval })
    else none

abbrev pub first_with : (Endpoint → Bool) → List Endpoint → Option Endpoint
first_with test [] = none
first_with test (ep ∷ rest) = if test ep then some ep else first_with test rest

abbrev or_first : Option Endpoint → Option Endpoint → Option Endpoint
or_first none later = later
or_first (some ep) later = some ep

-- An endpoint has one direction.
abbrev pub OneWay : List Endpoint → Type 0
OneWay [] = Unit
OneWay (ep ∷ rest) = ((ep.is_int_in && ep.is_int_out) ≡ false) × OneWay rest

take_endpoints-first :
    (eps : List Endpoint) (i o : Option Endpoint)
    → OneWay eps
    → take_endpoints eps (i, o) ≡ (
      or_first i (first_with (λ ep. ep.is_int_in) eps),
      or_first o (first_with (λ ep. ep.is_int_out) eps),
    )
unfolding take_endpoints take_endpoint
take_endpoints-first [] none none h = refl
take_endpoints-first [] none (some o) h = refl
take_endpoints-first [] (some i) none h = refl
take_endpoints-first [] (some i) (some o) h = refl
take_endpoints-first (ep ∷ rest) none none h = ground (
  arith,
  h.0,
  take_endpoints-first rest (some ep) none h.1,
  take_endpoints-first rest none (some ep) h.1,
  take_endpoints-first rest none none h.1,
)
take_endpoints-first (ep ∷ rest) none (some b) h = ground (
  arith,
  h.0,
  take_endpoints-first rest (some ep) (some b) h.1,
  take_endpoints-first rest none (some ep) h.1,
  take_endpoints-first rest none (some b) h.1,
)
take_endpoints-first (ep ∷ rest) (some a) none h = ground (
  arith,
  h.0,
  take_endpoints-first rest (some ep) none h.1,
  take_endpoints-first rest (some a) (some ep) h.1,
  take_endpoints-first rest (some a) none h.1,
)
take_endpoints-first (ep ∷ rest) (some a) (some b) h = ground (
  arith,
  h.0,
  take_endpoints-first rest (some ep) (some b) h.1,
  take_endpoints-first rest (some a) (some ep) h.1,
  take_endpoints-first rest (some a) (some b) h.1,
)

-- The endpoints that are chosen are the first interrupt endpoint of each direction.
pub choose_endpoints-first :
    (eps : List Endpoint)
    → OneWay eps
    → choose_endpoints eps
      ≡ (first_with (λ ep. ep.is_int_in) eps, first_with (λ ep. ep.is_int_out) eps)
unfolding choose_endpoints
choose_endpoints-first eps h = take_endpoints-first eps none none h
