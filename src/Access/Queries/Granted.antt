-- ===== src/Access/Queries/Granted.antt =====
-- Who gets a URL of a file.
use zhi_file_service_go.Common.{
  ◌≡◌, ◌↔◌, ◌⊎◌, ap, sym, ◌∙◌, Bool-cases, inl, inr, true, false, any, is_empty, is_blank, trim,
  text, text_eq, Text, text_eq_iff, text_eq_refl, after, arith,
}
use zhi_file_service_go.Result.{ok, accepted, Result-cases}
use zhi_file_service_go.Access.File.{
  AuthContext, scope_file_read, has_scope, require_file_read, FileView, active, ensure_readable,
}
use zhi_file_service_go.Access.Ticket.{
  DownloadDisposition, inline, attachment, disposition_text, AccessTicketClaims,
  normalize_disposition, validate_claims, DownloadPolicy, ensure_allowed,
}
use zhi_file_service_go.Access.Queries.{
  Ports, object_url, ResolveDownloadResult, resolve_download, RedirectResult,
  redirect_by_access_ticket, ticket_auth,
}

require_file_read_iff :
    (a : AuthContext)
    → (require_file_read a ≡ accepted) ↔ (
        (is_empty a.subject_id ≡ false)
        × (is_empty a.tenant_id ≡ false)
        × (has_scope a scope_file_read ≡ true))
unfolding require_file_read
require_file_read_iff a = ground arith

ensure_readable_iff :
    (f : FileView) (a : AuthContext)
    → (ensure_readable f a ≡ accepted) ↔ ((f.status ≡ active) × (a.tenant_id ≡ f.tenant_id))
unfolding ensure_readable
ensure_readable_iff f a = ground (arith, text_eq_iff a.tenant_id f.tenant_id)

resolve_download-allowed :
    (p : Ports) (file_id : Text) (requested : DownloadDisposition) (auth : AuthContext)
    (r : ResolveDownloadResult)
    → resolve_download p file_id requested auth ≡ ok r
    → (d : DownloadDisposition) × (policy : DownloadPolicy) × (normalize_disposition requested
        ≡ ok d)
      × (p.get_by_tenant_id r.file.tenant_id ≡ ok policy)
      × (ensure_allowed policy d ≡ accepted)
unfolding resolve_download
resolve_download-allowed p file_id requested auth r h =
    elim (Result-cases (normalize_disposition requested)) [
      | inl (d, e) ↦ elim (Result-cases (p.get_by_tenant_id r.file.tenant_id)) [
        | inl (policy, k) ↦ (d, policy, e, k, ground arith)
        | inr (x, k) ↦ absurd (ground arith)
      ]
      | inr (x, e) ↦ absurd (ground arith)
    ]

-- The disposition that a request asks for, attachment where it asks for none, and that no restriction
-- of the policy forbids.
pub data IsPermitted (asked : DownloadDisposition) (policy : DownloadPolicy) : Type 0 where
  as_inline :
      trim (disposition_text asked) ≡ text "inline"
      → policy.inline_preview_disabled ≡ false
      → IsPermitted asked policy
  as_attachment :
      trim (disposition_text asked) ≡ text "attachment" ⊎ is_blank (disposition_text asked) ≡ true
      → policy.attachment_download_disabled ≡ false
      → IsPermitted asked policy

trimmed_named : (s name : Text) → text_eq (trim s) name ≡ true → trim s ≡ name
trimmed_named s name h = (text_eq_iff (trim s) name).0 h

inline_only :
    (policy : DownloadPolicy)
    → ensure_allowed policy inline ≡ accepted
    → (policy.download_disabled ≡ false) × (policy.inline_preview_disabled ≡ false)
unfolding ensure_allowed
inline_only policy h = ground arith

attachment_only :
    (policy : DownloadPolicy)
    → ensure_allowed policy attachment ≡ accepted
    → (policy.download_disabled ≡ false) × (policy.attachment_download_disabled ≡ false)
unfolding ensure_allowed
attachment_only policy h = ground arith

asked_for :
    (asked d : DownloadDisposition)
    → normalize_disposition asked ≡ ok d
    → ((d ≡ inline) × (trim (disposition_text asked) ≡ text "inline"))
      ⊎ ((d ≡ attachment)
          × (trim (disposition_text asked) ≡ text "attachment"
              ⊎ is_blank (disposition_text asked) ≡ true))
unfolding normalize_disposition
asked_for asked d h =
    let s = disposition_text asked in
    elim (Bool-cases (is_empty (trim s))) [
      | inl e ↦ inr (ground (arith, e, h), inr e)
      | inr e ↦ elim (Bool-cases (text_eq (trim s) (text "inline"))) [
        | inl k ↦ inl (ground (arith, e, k, h), trimmed_named s (text "inline") k)
        | inr k ↦ elim (Bool-cases (text_eq (trim s) (text "attachment"))) [
          | inl l ↦ inr (ground (arith, e, k, l, h), inl (trimmed_named s (text "attachment") l))
          | inr l ↦ absurd (ground (arith, e, k, l, h))
        ]
      ]
    ]

allowed-IsPermitted :
    (asked d : DownloadDisposition) (policy : DownloadPolicy)
    → normalize_disposition asked ≡ ok d
    → ensure_allowed policy d ≡ accepted
    → (policy.download_disabled ≡ false) × IsPermitted asked policy
allowed-IsPermitted asked d policy h a = elim (asked_for asked d h) [
  | inl (e, k) ↦
      let only = inline_only policy (ap (ensure_allowed policy) (sym e) ∙ a) in
      (only.0, as_inline k only.1)
  | inr (e, k) ↦
      let only = attachment_only policy (ap (ensure_allowed policy) (sym e) ∙ a) in
      (only.0, as_attachment k only.1)
]

-- The handler of a download answers with a file and a URL only for a request that names a subject and
-- a tenant and has the scope file:read, where the file found under the identifier is that file, is
-- active and of the request's tenant, and the policy found for the tenant disables neither downloads
-- nor the disposition that the request asks for, attachment where it asks for none; the URL is the
-- one of that file's object.
pub resolve_download-granted :
    (p : Ports) (file_id : Text) (requested : DownloadDisposition) (auth : AuthContext)
    (r : ResolveDownloadResult)
    → resolve_download p file_id requested auth ≡ ok r
    → ((is_empty auth.subject_id ≡ false)
        × (is_empty auth.tenant_id ≡ false)
        × (any (λ scope. text_eq scope (text "file:read")) auth.scopes ≡ true))
      × (p.get_by_id file_id ≡ ok r.file)
      × (r.file.status ≡ active)
      × (auth.tenant_id ≡ r.file.tenant_id)
      × ((policy : DownloadPolicy) × (p.get_by_tenant_id r.file.tenant_id ≡ ok policy)
          × (policy.download_disabled ≡ false)
          × IsPermitted requested policy)
      × (object_url p r.file ≡ ok r.url)
unfolding resolve_download
resolve_download-granted p file_id requested auth r h =
    let (d, policy, named, found, allows) = resolve_download-allowed p file_id requested auth r h in
    let permitted = allowed-IsPermitted requested d policy named allows in
    (
      (require_file_read_iff auth).0 (ground arith),
      ground arith,
      ground (arith, ensure_readable_iff r.file auth),
      ground (arith, ensure_readable_iff r.file auth),
      (policy, found, permitted.0, permitted.1),
      ground arith,
    )

ticket-may_read :
    (claims : AccessTicketClaims)
    → validate_claims claims ≡ accepted
    → require_file_read (ticket_auth claims) ≡ accepted
unfolding validate_claims
ticket-may_read claims c =
    (require_file_read_iff (ticket_auth claims)).1
      (ground arith, ground arith, ground (arith, text_eq_refl scope_file_read))

-- A ticket that is verified, whose claims are complete and which has not expired, redirects to a file
-- and URL exactly when the download of the file in its claims, for the subject, the tenant and the
-- disposition of the claims, answers with them.
pub redirect-resolve_download :
    (p : Ports) (ticket : Text) (claims : AccessTicketClaims) (file : FileView) (url : Text)
    → p.verify ticket ≡ ok claims
    → validate_claims claims ≡ accepted
    → after claims.expires_at p.now ≡ true
    → (redirect_by_access_ticket p ticket ≡ ok (record { file = file; url = url; claim = claims }))
      ↔ (resolve_download p claims.file_id claims.disposition (ticket_auth claims)
          ≡ ok (record { file = file; url = url }))
unfolding redirect_by_access_ticket resolve_download
redirect-resolve_download p ticket claims file url v c e =
    elim (Result-cases (p.get_by_id claims.file_id)) [
      | inl (f, k) ↦
          ground (arith, ticket-may_read claims c, ensure_readable_iff f (ticket_auth claims))
      | inr (x, k) ↦ ground (arith, ticket-may_read claims c)
    ]

-- A ticket redirects only if it is verified, its claims are complete, and they expire after the
-- reading of the clock.
pub redirect-not_expired :
    (p : Ports) (ticket : Text) (r : RedirectResult)
    → redirect_by_access_ticket p ticket ≡ ok r
    → (p.verify ticket ≡ ok r.claim)
      × (validate_claims r.claim ≡ accepted)
      × (after r.claim.expires_at p.now ≡ true)
unfolding redirect_by_access_ticket
redirect-not_expired p ticket r h = ground arith
