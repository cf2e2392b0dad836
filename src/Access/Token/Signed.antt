-- ===== src/Access/Token/Signed.antt =====
-- Only a ticket that carries the signature of its payload is verified.
use zhi_file_service_go.Common.{
  ◌≡◌, refl, sym, Bool, true, false, not, ◌||◌, Option, none, some, Text, text_eq, text_eq_iff,
  is_blank, trim, arith,
}
use zhi_file_service_go.Result.{Result, ok, err, refuse, ◌>>=◌, ◌>>◌}
use zhi_file_service_go.Access.Ticket.{AccessTicketClaims}
use zhi_file_service_go.Access.Token.{
  ticket_prefix, SignedClaims, TokenSettings, of_signed, invalid, after_error, after_prefix,
  split_dot, sign, verify_parts, verify_split, verify_body, verify,
}

-- What an accepted ticket is.
pub record Signed (settings : TokenSettings) (ticket : Text) (c : AccessTicketClaims) : Type 0 where
  pub body : Text
  pub prefixed : after_prefix ticket_prefix (trim ticket) ≡ some body
  pub payload : Text
  pub signature : Text
  pub parts : split_dot body ≡ some (payload, signature)
  pub signed : signature ≡ sign settings payload
  pub raw : Text
  pub decoded : settings.decode payload ≡ ok raw
  pub claims : SignedClaims
  pub read : settings.unmarshal raw ≡ ok claims
  pub same : c ≡ of_signed claims

record Parts (settings : TokenSettings) (payload signature : Text) (c : AccessTicketClaims)
    : Type 0 where
  signed : signature ≡ sign settings payload
  raw : Text
  decoded : settings.decode payload ≡ ok raw
  claims : SignedClaims
  read : settings.unmarshal raw ≡ ok claims
  same : c ≡ of_signed claims

read_last :
    (settings : TokenSettings) (raw : Text) (c : AccessTicketClaims) (r : Result SignedClaims)
    → settings.unmarshal raw ≡ r
    → (after_error "unmarshal ticket payload" r >>= λ s. ok (of_signed s)) ≡ ok c
    → (claims : SignedClaims) × (settings.unmarshal raw ≡ ok claims) × (c ≡ of_signed claims)
read_last settings raw c (err x) e h = absurd (ground arith)
read_last settings raw c (ok s) e h = (s, e, ground (arith, h))

read-Parts :
    (settings : TokenSettings) (payload signature : Text) (c : AccessTicketClaims) (a b : Bool)
    (r : Result Text)
    → text_eq (sign settings payload) signature ≡ b
    → settings.decode payload ≡ r
    → (do
      refuse a (invalid "invalid ticket format")
      refuse (not b) (invalid "invalid ticket signature")
      raw ← after_error "decode ticket payload" r
      s ← after_error "unmarshal ticket payload" (settings.unmarshal raw)
      ok (of_signed s))
      ≡ ok c
    → Parts settings payload signature c
read-Parts settings payload signature c true b r e d h = absurd (ground arith)
read-Parts settings payload signature c false false r e d h = absurd (ground arith)
read-Parts settings payload signature c false true (err x) e d h = absurd (ground arith)
read-Parts settings payload signature c false true (ok raw) e d h =
    let last = read_last settings raw c (settings.unmarshal raw) refl h in
    record {
      signed = sym ((text_eq_iff (sign settings payload) signature).0 e);
      raw = raw;
      decoded = d;
      claims = last.0;
      read = last.1;
      same = last.2;
    }

verify_split-cases :
    (settings : TokenSettings) (ticket body : Text) (c : AccessTicketClaims)
    (parts : Option (Text × Text))
    → after_prefix ticket_prefix (trim ticket) ≡ some body
    → split_dot body ≡ parts
    → verify_split settings parts ≡ ok c
    → Signed settings ticket c
unfolding verify_split verify_parts
verify_split-cases settings ticket body c none p e h = absurd (ground arith)
verify_split-cases settings ticket body c (some (payload, signature)) p e h =
    let x =
      read-Parts settings payload signature c (is_blank payload || is_blank signature) _ _ refl refl
        h in
    record {
      body = body;
      prefixed = p;
      payload = payload;
      signature = signature;
      parts = e;
      signed = x.signed;
      raw = x.raw;
      decoded = x.decoded;
      claims = x.claims;
      read = x.read;
      same = x.same;
    }

verify_body-cases :
    (settings : TokenSettings) (ticket : Text) (c : AccessTicketClaims) (body : Option Text)
    → after_prefix ticket_prefix (trim ticket) ≡ body
    → verify_body settings body ≡ ok c
    → Signed settings ticket c
unfolding verify_body
verify_body-cases settings ticket c none p h = absurd (ground arith)
verify_body-cases settings ticket c (some body) p h =
    verify_split-cases settings ticket body c (split_dot body) p refl h

-- Whatever the encodings do, a ticket that Verify accepts is, spaces trimmed, the prefix, a payload
-- and after the first dot the signature of that payload under the key, and its claims are those that
-- the payload decodes to.
pub verify-Signed :
    (settings : TokenSettings) (ticket : Text) (c : AccessTicketClaims)
    → verify settings ticket ≡ ok c
    → Signed settings ticket c
unfolding verify
verify-Signed settings ticket c h =
    verify_body-cases settings ticket c (after_prefix ticket_prefix (trim ticket)) refl h
