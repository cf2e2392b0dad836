-- ===== src/Access/Token/RoundTrip.antt =====
-- A ticket that Issue made is verified to the claims it was made of.
use zhi_file_service_go.Common.{
  ℕ, ◌*◌, ◌/◌, ◌≡◌, refl, ap, ◌∙◌, difference, false, some, [], ◌∷◌, ◌++◌, All, ◌==◌, Text, text,
  text_eq, text_eq_refl, is_blank, is_empty, is_space, trim_of_solid, add, arith,
}
use zhi_file_service_go.Result.{Result, ok, err, Check, ◌>>=◌, ◌>>◌}
use zhi_file_service_go.Access.Ticket.{
  DownloadDisposition, disposition_text, AccessTicketClaims, validate_claims,
}
use zhi_file_service_go.Access.Token.{
  ticket_prefix, SignedClaims, TokenSettings, unix_epoch, nanoseconds, unix, of_unix,
  disposition_of_text, to_signed, of_signed, after_error, after_prefix, split_dot, sign, issue,
  verify_parts, verify_split, verify_body, verify,
}

-- A character of the URL alphabet of base64 is neither a space nor a dot.
pub record IsPlain (c : ℕ) : Type 0 where
  pub solid : is_space c ≡ false
  pub no_dot : (c == b'.') ≡ false

-- What a ticket of these claims relies on: base64 is inverted by its decoding and uses plain
-- characters, the JSON of the claims is read back, and neither JSON nor a MAC is empty.
pub record Encodes (settings : TokenSettings) (s : SignedClaims) : Type 0 where
  pub plain : (b : Text) → All IsPlain (settings.encode b)
  pub given : (b : Text) → is_empty b ≡ false → is_empty (settings.encode b) ≡ false
  pub decodes : (b : Text) → settings.decode (settings.encode b) ≡ ok b
  pub reads : (b : Text) → settings.marshal s ≡ ok b → settings.unmarshal b ≡ ok s
  pub written : (b : Text) → settings.marshal s ≡ ok b → is_empty b ≡ false
  pub mac_given : (b : Text) → is_empty (settings.mac settings.key b) ≡ false

after_prefix-append : (p s : Text) → after_prefix p (p ++ s) ≡ some s
unfolding after_prefix
after_prefix-append [] s = refl
after_prefix-append (c ∷ p) s = ground (arith, after_prefix-append p s)

split_dot-append : (p s : Text) → All IsPlain p → split_dot (p ++ (b'.' ∷ s)) ≡ some (p, s)
unfolding split_dot
split_dot-append [] s h = ground arith
split_dot-append (c ∷ p) s h = ground (arith, h.0.no_dot, split_dot-append p s h.1)

All-solid : (s : Text) → All IsPlain s → All (λ c. is_space c ≡ false) s
All-solid [] h = tt
All-solid (c ∷ s) h = (h.0.solid, All-solid s h.1)

All-append : (P : ℕ → Type 0) (s t : Text) → All P s → All P t → All P (s ++ t)
All-append P [] t a b = b
All-append P (c ∷ s) t a b = (a.0, All-append P s t a.1 b)

is_blank_of_plain : (s : Text) → All IsPlain s → is_empty s ≡ false → is_blank s ≡ false
is_blank_of_plain s h n = ap is_empty (trim_of_solid s (All-solid s h)) ∙ n

abbrev pub IsKnownDisposition : DownloadDisposition → Type 0
IsKnownDisposition (DownloadDisposition.other s) = ⊥
IsKnownDisposition d = Unit

disposition_of_text-text :
    (d : DownloadDisposition) → IsKnownDisposition d → disposition_of_text (disposition_text d) ≡ d
unfolding text_eq
disposition_of_text-text DownloadDisposition.inline h = refl
disposition_of_text-text DownloadDisposition.attachment h = refl
disposition_of_text-text (DownloadDisposition.other s) h = absurd h

add-difference : (a n : ℕ) → add a (difference n a) ≡ n
add-difference a n = ground arith

-- The claims with the expiry in whole seconds.
abbrev pub in_seconds : AccessTicketClaims → AccessTicketClaims
in_seconds c = record c { expires_at = c.expires_at / nanoseconds * nanoseconds }

of_signed-to_signed :
    (c : AccessTicketClaims)
    → IsKnownDisposition c.disposition
    → of_signed (to_signed c) ≡ in_seconds c
of_signed-to_signed c h =
    ap (λ d. record (in_seconds c) { disposition = d; expires_at = of_unix (unix c.expires_at) })
      (disposition_of_text-text c.disposition h)
    ∙ ap (λ n. record c { expires_at = n * nanoseconds })
        (add-difference unix_epoch (c.expires_at / nanoseconds))

module _ (settings : TokenSettings) (s : SignedClaims) (encodes : Encodes settings s) where
  abbrev ticket_of : Text → Text
  ticket_of payload =
      ticket_prefix
      ++ (settings.encode payload ++ (text "." ++ sign settings (settings.encode payload)))

  verify_parts-signed :
      (payload : Text)
      → settings.unmarshal payload ≡ ok s
      → is_empty payload ≡ false
      → verify_parts settings (settings.encode payload) (sign settings (settings.encode payload))
        ≡ ok (of_signed s)
  unfolding verify_parts sign
  verify_parts-signed payload h given =
      rw
        (
          is_blank_of_plain (settings.encode payload) (encodes.plain payload)
              (encodes.given payload given),
          is_blank_of_plain (settings.encode (settings.mac settings.key (settings.encode payload)))
              (encodes.plain (settings.mac settings.key (settings.encode payload)))
              (encodes.given (settings.mac settings.key (settings.encode payload))
                (encodes.mac_given (settings.encode payload))),
          text_eq_refl (settings.encode (settings.mac settings.key (settings.encode payload))),
          encodes.decodes payload,
          h,
        )
        refl

  ticket_of-solid : (payload : Text) → All (λ c. is_space c ≡ false) (ticket_of payload)
  unfolding sign is_space
  ticket_of-solid payload = (
    refl,
    (
      refl,
      (
        refl,
        All-append (λ c. is_space c ≡ false) (settings.encode payload)
            (text "." ++ sign settings (settings.encode payload))
            (All-solid (settings.encode payload) (encodes.plain payload))
            (
              refl,
              All-solid (sign settings (settings.encode payload))
                  (encodes.plain (settings.mac settings.key (settings.encode payload))),
            ),
      ),
    ),
  )

  verify-ticket_of :
      (payload : Text)
      → settings.unmarshal payload ≡ ok s
      → is_empty payload ≡ false
      → verify settings (ticket_of payload) ≡ ok (of_signed s)
  unfolding verify verify_body verify_split
  verify-ticket_of payload h given =
      let body = settings.encode payload ++ (text "." ++ sign settings (settings.encode payload)) in
      let trimmed : verify settings (ticket_of payload)
          ≡ verify_body settings (after_prefix ticket_prefix (ticket_of payload)) =
        ap (λ t. verify_body settings (after_prefix ticket_prefix t))
          (trim_of_solid (ticket_of payload) (ticket_of-solid payload)) in
      let found : verify_body settings (after_prefix ticket_prefix (ticket_of payload))
          ≡ verify_body settings (some body) =
        ap (verify_body settings) (after_prefix-append ticket_prefix body) in
      let divided : verify_body settings (some body)
          ≡ verify_split settings
              (some (settings.encode payload, sign settings (settings.encode payload))) =
        ap (verify_split settings) (
          split_dot-append (settings.encode payload) (sign settings (settings.encode payload))
            (encodes.plain payload)) in
      trimmed ∙ found ∙ divided ∙ verify_parts-signed payload h given

issued :
    (settings : TokenSettings) (ticket : Text) (v : Check) (r : Result Text)
    → (do
      v
      payload ← after_error "marshal ticket claims" r
      ok (
          ticket_prefix
          ++ (settings.encode payload ++ (text "." ++ sign settings (settings.encode payload)))))
      ≡ ok ticket
    → (payload : Text) × (r ≡ ok payload)
      × (ticket
          ≡ ticket_prefix
            ++ (settings.encode payload ++ (text "." ++ sign settings (settings.encode payload))))
issued settings ticket (err e) r h = absurd (ground arith)
issued settings ticket (ok u) (err e) h = absurd (ground arith)
issued settings ticket (ok u) (ok payload) h = (payload, refl, ground (arith, h))

-- The payload that Issue marshalled.
issue-payload :
    (settings : TokenSettings) (c : AccessTicketClaims) (ticket : Text)
    → issue settings c ≡ ok ticket
    → (payload : Text) × (settings.marshal (to_signed c) ≡ ok payload)
      × (ticket
          ≡ ticket_prefix
            ++ (settings.encode payload ++ (text "." ++ sign settings (settings.encode payload))))
unfolding issue
issue-payload settings c ticket h =
    issued settings ticket (validate_claims c) (settings.marshal (to_signed c)) h

-- Verify accepts every ticket that Issue made, and gives the claims that it was made of, their expiry
-- in whole seconds, where the disposition is one of the two constants and the encodings are as they
-- are documented.
pub verify-issue :
    (settings : TokenSettings) (c : AccessTicketClaims) (ticket : Text)
    → Encodes settings (to_signed c)
    → IsKnownDisposition c.disposition
    → issue settings c ≡ ok ticket
    → verify settings ticket ≡ ok (in_seconds c)
verify-issue settings c ticket encodes known h =
    let (payload, marshalled, made) = issue-payload settings c ticket h in
    ap (verify settings) made
    ∙ verify-ticket_of settings (to_signed c) encodes payload (encodes.reads payload marshalled)
        (encodes.written payload marshalled)
    ∙ ap (λ (x : AccessTicketClaims). ok x) (of_signed-to_signed c known)
