-- ===== src/Upload/Handlers/Outcomes/Presigns.antt =====
-- What PresignMultipartPartsHandler.Handle has done when it returns.
use zhi_file_service_go.Common.{
  ℕ, add, ◌≡◌, refl, ap, sym, ◌∙◌, true, false, ◌&&◌, Option, none, some, List, [], ◌∷◌, map, All,
  ℤ, pos, ltb_ℤ, Time, arith,
}
use mathlib.Core.Path.{subst}
use mathlib.Core.List.{Perm}
use zhi_file_service_go.Common.Sorting.Distinct.{IsStrict}
use zhi_file_service_go.Xerrors.{Err}
use zhi_file_service_go.Result.{Result, ok, err}
use zhi_file_service_go.Upload.Parts.Normalized.{validate_presign_part_numbers-IsStrict}
use zhi_file_service_go.Upload.Policy.{normalize_presign_ttl}
use zhi_file_service_go.Upload.Materialize.{or_else_wrap}
use zhi_file_service_go.Upload.Mode.{direct}
use zhi_file_service_go.Upload.Session.{Session}
use zhi_file_service_go.Upload.Parts.{number_key}
use zhi_file_service_go.Upload.World.{World, Env, clock, settled, ticked}
use zhi_file_service_go.Upload.World.Laws.{Returns, steps, lifted, returned, raise_if_returns}
use zhi_file_service_go.Upload.View.{PresignedPart}
use zhi_file_service_go.Upload.Handlers.{
  is_mode, takes_parts, first_beyond, refuse_beyond, PresignMultipartPartsCommand, presign_parts,
  presign_multipart_parts,
}
use zhi_file_service_go.Upload.Handlers.Outcomes.{Loaded, session_for-Loaded}

-- A part that the session has: any, where it has no total.
abbrev pub IsWithin : ℤ → ℤ → Type 0
IsWithin total n = (ltb_ℤ (pos 0) total && ltb_ℤ total n) ≡ false

first_beyond-none :
    (total : ℤ) (ns : List ℤ) → first_beyond total ns ≡ none → All (IsWithin total) ns
unfolding first_beyond
first_beyond-none total [] h = tt
first_beyond-none total (n ∷ ns) h = ground (arith, first_beyond-none total ns)

refuse_beyond-passes :
    (total : ℤ) (n : Option ℤ) (u : Unit {0}) → refuse_beyond total n ≡ ok u → n ≡ none
refuse_beyond-passes total none u h = refl
refuse_beyond-passes total (some n) u h = absurd (ground arith)

wrapped_ok {ℓ} :
    {A : Type ℓ} (wrapped : Err → Err) (r : Result A) (a : A)
    → or_else_wrap wrapped r ≡ ok a
    → r ≡ ok a
wrapped_ok wrapped (ok x) a h = h
wrapped_ok wrapped (err e) a h = absurd (ground arith)

module _ (env : Env) where
  -- The URL and headers of the part are what the provider signed for its number of the session's
  -- upload, for this lifetime.
  abbrev pub IsSigned : Session → ℤ → PresignedPart → Type 0
  IsSigned s ttl p =
      (tick : ℕ) × (env.presign_part tick s.object s.provider_upload_id p.part_number ttl
        ≡ ok (p.url, p.headers))

  presign_parts-numbers :
      (s : Session) (ttl : ℤ) (expires_at : Time) (ns : List ℤ) (w : World) (r : List PresignedPart)
      (v : World)
      → Returns (presign_parts env s ttl expires_at ns) w r v
      → (map (λ (p : PresignedPart). p.part_number) r ≡ ns)
        × All (λ (p : PresignedPart). IsSigned s ttl p × (p.expires_at ≡ expires_at)) r
        × (v.tables ≡ w.tables)
        × (v.effects ≡ w.effects)
  unfolding presign_parts
  presign_parts-numbers s ttl expires_at [] w r v h =
      let (answer, same) = returned _ w r v h in
      (
        ap (map (λ (p : PresignedPart). p.part_number)) (sym answer),
        subst (All (λ (p : PresignedPart). IsSigned s ttl p × (p.expires_at ≡ expires_at))) answer
            tt,
        ap (λ (x : World). x.tables) same,
        ap (λ (x : World). x.effects) same,
      )
  presign_parts-numbers s ttl expires_at (n ∷ ns) w r v h =
      let s1 = steps _ _ w r v h in
      let s2 = steps _ _ s1.between r v s1.rest in
      let (answer, same) = returned _ s2.between r v s2.rest in
      let rest =
        presign_parts-numbers s ttl expires_at ns s1.between s2.value s2.between s2.first in
      let moved : s1.between ≡ ticked w = sym (ap (λ p. p.1) s1.first) in
      (
        ap (map (λ (p : PresignedPart). p.part_number)) (sym answer)
            ∙ ap (λ (x : List ℤ). n ∷ x) rest.0,
        subst (All (λ (p : PresignedPart). IsSigned s ttl p × (p.expires_at ≡ expires_at))) answer
            (((w.tick, wrapped_ok _ _ _ (ap (λ p. p.0) s1.first)), refl), rest.1),
        ap (λ (x : World). x.tables) same ∙ rest.2 ∙ ap (λ (x : World). x.tables) moved,
        ap (λ (x : World). x.effects) same ∙ rest.3 ∙ ap (λ (x : World). x.effects) moved,
      )

module _ (env : Env) (default_ttl max_ttl : ℤ) where
  abbrev ttl : PresignMultipartPartsCommand → ℤ
  ttl command = normalize_presign_ttl command.expires_in default_ttl max_ttl

  pub record Presigns (command : PresignMultipartPartsCommand) (w : World) (r : List PresignedPart)
      (v : World) : Type 0 where
    pub ascending : IsStrict number_key (map (λ (p : PresignedPart). p.part_number) r)
    pub of_request : Perm (map (λ (p : PresignedPart). p.part_number) r) command.parts
    pub session : Session
    pub read_until : World
    pub loaded : Loaded env command.auth command.upload_session_id w session read_until
    pub multipart : is_mode session.mode direct ≡ true
    pub taken : takes_parts session.status ≡ true
    pub within : All (IsWithin session.total_parts) (map (λ (p : PresignedPart). p.part_number) r)
    pub now : Time
    pub signed :
        All
          (λ (p : PresignedPart).
            IsSigned env session (ttl command) p × (p.expires_at ≡ add now (ttl command)))
          r
    pub tables : v.tables ≡ (settled env w).tables

  -- The presign handler, when it returns, answers with one part for each of the part numbers of the
  -- request, in strictly ascending order, with the URL that the provider signed for that number of
  -- the session's upload and the end of its lifetime; the session that it read is of the request,
  -- multipart and open, every number is a part of it, and nothing is written.
  pub presign_multipart_parts-Presigns :
      (command : PresignMultipartPartsCommand) (w : World) (r : List PresignedPart) (v : World)
      → Returns (presign_multipart_parts env default_ttl max_ttl command) w r v
      → Presigns command w r v
  unfolding presign_multipart_parts clock
  presign_multipart_parts-Presigns command w r v h =
      let s1 = steps _ _ w r v h in
      let (writes, same1) = lifted _ w s1.value s1.between s1.first in
      let s2 = steps _ _ s1.between r v s1.rest in
      let (given, same2) = raise_if_returns _ _ s1.between s2.value s2.between s2.first in
      let s3 = steps _ _ s2.between r v s2.rest in
      let (checked, same3) = lifted _ s2.between s3.value s3.between s3.first in
      let s4 = steps _ _ s3.between r v s3.rest in
      let loaded =
        session_for-Loaded env command.auth command.upload_session_id s3.between s4.value s4.between
          s4.first in
      let s5 = steps _ _ s4.between r v s4.rest in
      let (mode, same5) = raise_if_returns _ _ s4.between s5.value s5.between s5.first in
      let s6 = steps _ _ s5.between r v s5.rest in
      let (status, same6) = raise_if_returns _ _ s5.between s6.value s6.between s6.first in
      let s7 = steps _ _ s6.between r v s6.rest in
      let (beyond, same7) = lifted _ s6.between s7.value s7.between s7.first in
      let s8 = steps _ _ s7.between r v s7.rest in
      let parts = presign_parts-numbers env s4.value _ _ s3.value s8.between r v s8.rest in
      let named = parts.0 in
      let (strict, perm) = validate_presign_part_numbers-IsStrict command.parts checked in
      let clocked : s8.between ≡ ticked s7.between = sym (ap (λ p. p.1) s8.first) in
      record {
        ascending = subst (IsStrict number_key) (sym named) strict;
        of_request = subst (λ ns. Perm ns command.parts) (sym named) perm;
        session = s4.value;
        read_until = s4.between;
        loaded =
            subst (λ x. Loaded env command.auth command.upload_session_id x s4.value s4.between)
              (same3 ∙ same2 ∙ same1) loaded;
        multipart = ground (arith, mode);
        taken = ground (arith, status);
        within = subst (All (IsWithin s4.value.total_parts)) (sym named) (
            first_beyond-none s4.value.total_parts s3.value
              (refuse_beyond-passes s4.value.total_parts _ s7.value beyond));
        now = s8.value;
        signed = parts.1;
        tables =
            parts.2
            ∙ ap (λ (x : World). x.tables) (clocked ∙ ap ticked (same7 ∙ same6 ∙ same5))
            ∙ loaded.tables
            ∙ ap (λ x. (settled env x).tables) (same3 ∙ same2 ∙ same1);
      }
