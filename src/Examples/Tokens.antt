-- ===== src/Examples/Tokens.antt =====
-- A ticket with a shift of the characters for base64.
use zhi_file_service_go.Common.{
  ℕ, ◌+◌, ◌-◌, ◌≡◌, refl, ap, ◌∙◌, [], ◌∷◌, ◌++◌, map, All, Text, text, is_empty, is_space, arith,
}
use zhi_file_service_go.Result.{ok}
use zhi_file_service_go.Access.Ticket.{DownloadDisposition, AccessTicketClaims, validate_claims}
use zhi_file_service_go.Access.Token.{TokenSettings, to_signed, sign, issue, verify}
use zhi_file_service_go.Access.Token.RoundTrip.{IsPlain, Encodes, in_seconds, verify-issue}
use zhi_file_service_go.Access.Token.Signed.{Signed, verify-Signed}

abbrev claims : AccessTicketClaims
claims = record {
  file_id = text "f1";
  tenant_id = text "acme";
  subject = text "ann";
  subject_type = text "user";
  disposition = DownloadDisposition.attachment;
  response_name = [];
  expires_at = 63000000000123456789;
}

abbrev shifted : Text → Text
shifted b = map (λ c. c + 0x10000) b

abbrev unshifted : Text → Text
unshifted b = map (λ c. c - 0x10000) b

unshifted-shifted : (b : Text) → unshifted (shifted b) ≡ b
unshifted-shifted [] = refl
unshifted-shifted (c ∷ b) = ground (arith, unshifted-shifted b)

abbrev settings : TokenSettings
settings = record {
  encode = shifted;
  decode = λ b. ok (unshifted b);
  marshal = λ s. ok (text "{}");
  unmarshal = λ b. ok (to_signed claims);
  mac = λ key b. key;
  key = text "k";
}

IsPlain-shift : (c : ℕ) → IsPlain (c + 0x10000)
unfolding is_space
IsPlain-shift c = record { solid = ground arith; no_dot = ground arith }

All-shifted : (b : Text) → All IsPlain (shifted b)
All-shifted [] = tt
All-shifted (c ∷ b) = (IsPlain-shift c, All-shifted b)

is_empty-shifted : (b : Text) → is_empty (shifted b) ≡ is_empty b
is_empty-shifted [] = refl
is_empty-shifted (c ∷ b) = refl

settings-Encodes : Encodes settings (to_signed claims)
settings-Encodes = record {
  plain = All-shifted;
  given = λ b h. is_empty-shifted b ∙ h;
  decodes = λ b. ap (λ x. ok x) (unshifted-shifted b);
  reads = λ b h. refl;
  written = λ b h. ground (arith, h);
  mac_given = λ b. refl;
}

abbrev ticket : Text
ticket = text "at_" ++ (shifted (text "{}") ++ (text "." ++ shifted (text "k")))

issues : issue settings claims ≡ ok ticket
unfolding issue sign validate_claims
issues = refl

verify-issue_example : verify settings ticket ≡ ok (in_seconds claims)
verify-issue_example = verify-issue settings claims ticket settings-Encodes tt issues

verified : verify settings ticket ≡ ok (in_seconds claims)
verified = verify-issue settings claims ticket settings-Encodes tt issues

verify-Signed_example : Signed settings ticket (in_seconds claims)
verify-Signed_example = verify-Signed settings ticket (in_seconds claims) verified
