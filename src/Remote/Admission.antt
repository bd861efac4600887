-- ===== src/Remote/Admission.antt =====
-- Who is served the stream.
use dsh_chaos.Common.{
  ℕ, ◌≤◌, String, true, false, Option, some, List, [], ◌∷◌, ◌≡◌, ◌≢◌, refl, sym, ap, ◌∙◌, ◌⊎◌, inl,
  inr, arith, eq_iff, Bool-cases, Option-cases, ◌==◌,
}
use dsh_chaos.Common.Texts.{concat, all_digits, big_int}
use dsh_chaos.Common.Splits.{split_on, join_with, join_with-split_on}
use dsh_chaos.Common.Results.{Result, ok, throws, Result-cases}
use dsh_chaos.Wire.{ChangeEvent}
use dsh_chaos.Remote.Payload.{is_decimal}
use dsh_chaos.Remote.Stream.{Stream, Round, serve_from}
use dsh_chaos.Remote.Guards.{
  Header, absent, one, several, Url, Incoming, is_octet, is_loopback_address, is_loopback_hostname,
  header_is, is_same_host, is_trusted_sse_request, request_cursor, Served, refused, streamed,
  serve_collab_events,
}

-- A number up to 255 in decimal digits.
abbrev pub IsOctet : String → Type 0
IsOctet s = (all_digits s ≡ true) × (big_int s ≤ 255)

-- This machine by name, or by an address of it.
abbrev pub IsLoopback : String → Type 0
IsLoopback h =
    (h ≡ "localhost")
    ⊎ (h ≡ "[::1]")
    ⊎ ((b : String) × (c : String) × (d : String) × (h ≡ join_with "." ("127" ∷ b ∷ c ∷ d ∷ []))
        × IsOctet b
        × IsOctet c
        × IsOctet d)

octet_lem : (s : String) → is_octet s ≡ true → IsOctet s
octet_lem s h = (ground arith, ground arith)

address_lem :
    (parts : List String)
    → is_loopback_address parts ≡ true
    → (b : String) × (c : String) × (d : String) × (parts ≡ "127" ∷ b ∷ c ∷ d ∷ [])
      × IsOctet b
      × IsOctet c
      × IsOctet d
address_lem [] h = cc
address_lem (a ∷ []) h = cc
address_lem (a ∷ b ∷ []) h = cc
address_lem (a ∷ b ∷ c ∷ []) h = cc
address_lem (a ∷ b ∷ c ∷ d ∷ []) h =
    let first : a ≡ "127" = (eq_iff a "127").0 (ground arith) in
    (
      b,
      c,
      d,
      ap (λ x. x ∷ b ∷ c ∷ d ∷ []) first,
      octet_lem b (ground arith),
      octet_lem c (ground arith),
      octet_lem d (ground arith),
    )
address_lem (a ∷ b ∷ c ∷ d ∷ e ∷ parts) h = cc

loopback_lem : (h : String) → is_loopback_hostname h ≡ true → IsLoopback h
unfolding is_loopback_hostname
loopback_lem h t = elim (Bool-cases (h == "localhost")) [
  | inl named ↦ inl ((eq_iff h "localhost").0 named)
  | inr other ↦ elim (Bool-cases (h == "[::1]")) [
    | inl six ↦ inr (inl ((eq_iff h "[::1]").0 six))
    | inr four ↦
        let (b, c, d, parts, ob, oc, od) = address_lem (split_on b'.' h) (ground arith) in
        inr (inr (b, c, d, sym (join_with-split_on "." h) ∙ ap (join_with ".") parts, ob, oc, od))
  ]
]

header_lem : (x : Header) (t : String) → header_is x t ≡ false → x ≢ one t
header_lem x t h e =
    let k : header_is x t ≡ true = ap (λ y. header_is y t) e ∙ (eq_iff t t).1 refl in cc

module _ (parse_url : String → Option Url) where
  -- No origin was sent, or one of the same host.
  abbrev pub IsSameOrigin : Header → Url → Type 0
  IsSameOrigin origin url =
      (origin ≡ absent)
      ⊎ ((o : String) × (u : Url) × (origin ≡ one o) × (parse_url o ≡ some u) × (u.host ≡ url.host))

  origin_lem :
      (origin : Header) (url : Url)
      → is_same_host parse_url origin url ≡ true
      → IsSameOrigin origin url
  origin_lem absent url h = inl refl
  origin_lem (several ss) url h = cc
  origin_lem (one o) url h = elim (Option-cases (parse_url o)) [
    | inl bad ↦ absurd (ground arith)
    | inr (u, good) ↦ inr (o, u, refl, good, (eq_iff u.host url.host).0 (ground arith))
  ]

  -- The request names this machine as its host, and no other site or origin.
  abbrev pub IsLocal : Incoming → Type 0
  IsLocal request =
      (host : String) × (url : Url) × (request.host ≡ one host)
      × (parse_url (concat ("http://" ∷ host ∷ [])) ≡ some url)
      × IsLoopback url.hostname
      × (request.sec_fetch_site ≢ one "cross-site")
      × IsSameOrigin request.origin url

  host_lem :
      (request : Incoming) (x : Header)
      → request.host ≡ x
      → is_trusted_sse_request parse_url request ≡ true
      → IsLocal request
  unfolding is_trusted_sse_request
  host_lem request absent e h = absurd (ground arith)
  host_lem request (several ss) e h = absurd (ground arith)
  host_lem request (one host) e h =
      elim (Option-cases (parse_url (concat ("http://" ∷ host ∷ [])))) [
        | inl bad ↦ absurd (ground arith)
        | inr (url, good) ↦ (
          host,
          url,
          e,
          good,
          loopback_lem url.hostname (ground arith),
          header_lem request.sec_fetch_site "cross-site" (ground arith),
          origin_lem request.origin url (ground arith),
        )
      ]

  module _ {L : Type 0} (list_changes : L → String → ℕ → Result (List ChangeEvent)) where
    abbrev answered : Result String → List (Round L) → ℕ → Served
    answered (throws e) rounds room = refused 400 e
    answered (ok cursor) rounds room = streamed (serve_from list_changes rounds cursor room)

    decimal_lem :
        (request : Incoming) (cursor : String)
        → request_cursor request ≡ ok cursor
        → is_decimal cursor ≡ true
    unfolding request_cursor
    decimal_lem request cursor h = elim (Result-cases request.query_cursor) [
      | inl (query, e) ↦ ground arith
      | inr (x, e) ↦ absurd (ground arith)
    ]

    cursor_lem :
        (request : Incoming) (rounds : List (Round L)) (room : ℕ) (stream : Stream)
        → answered (request_cursor request) rounds room ≡ streamed stream
        → (cursor : String) × (is_decimal cursor ≡ true)
          × (stream ≡ serve_from list_changes rounds cursor room)
    cursor_lem request rounds room stream h = elim (Result-cases (request_cursor request)) [
      | inl (cursor, e) ↦ (cursor, decimal_lem request cursor e, ground arith)
      | inr (x, e) ↦ absurd (ground arith)
    ]

    -- A stream is served only to a GET request whose Host header is one text that names this machine,
    -- by name or by a loopback address, that does not come from another site, and that has no origin
    -- or one of the same host. It is the replay from a decimal cursor.
    pub serve_collab_events-IsLocal :
        (request : Incoming) (rounds : List (Round L)) (room : ℕ) (stream : Stream)
        → serve_collab_events parse_url list_changes request rounds room ≡ streamed stream
        → (request.method ≡ "GET")
          × IsLocal request
          × ((cursor : String) × (is_decimal cursor ≡ true)
              × (stream ≡ serve_from list_changes rounds cursor room))
    unfolding serve_collab_events
    serve_collab_events-IsLocal request rounds room stream h =
        elim (Bool-cases (request.method == "GET")) [
          | inr other ↦ absurd (ground arith)
          | inl get ↦ elim (Bool-cases (is_trusted_sse_request parse_url request)) [
            | inr strange ↦ absurd (ground arith)
            | inl trusted ↦ (
              (eq_iff request.method "GET").0 get,
              host_lem request request.host refl trusted,
              cursor_lem request rounds room stream (ground arith),
            )
          ]
        ]
