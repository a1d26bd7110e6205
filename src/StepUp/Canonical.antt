-- ===== src/StepUp/Canonical.antt =====
-- The text that a step-up ticket's binding digest is taken of.
use vps_manager.Base.{◌≡◌, ◌∷◌, ◌++◌, arith, Text}
use vps_manager.Encoding.Join
use vps_manager.Encoding.Join.{Lacks, split_unique}
use mathlib.Core.List.{append_assoc}
use vps_manager.StepUp.Validation.{Binding}
use vps_manager.StepUp.{canonical}

-- No field but the reason, which stands last, has a zero byte.
pub record IsNulFree (b : Binding) : Type 0 where
  pub subject : Lacks 0 b.subject
  pub session_id : Lacks 0 b.session_id
  pub action : Lacks 0 b.action
  pub target_id : Lacks 0 b.target_id
  pub parameters_sha256 : Lacks 0 b.parameters_sha256

-- Two bindings without zero bytes before their reasons have the same canonical text only if they are
-- the same.
pub canonical-injective :
    (a b : Binding) → IsNulFree a → IsNulFree b → canonical a ≡ canonical b → a ≡ b
unfolding canonical Join.join
canonical-injective a b ha hb e =
    let s = split_unique 0 a.subject b.subject ha.subject hb.subject e in
    let i = split_unique 0 a.session_id b.session_id ha.session_id hb.session_id s.1 in
    let c = split_unique 0 a.action b.action ha.action hb.action i.1 in
    let t = split_unique 0 a.target_id b.target_id ha.target_id hb.target_id c.1 in
    let p =
      split_unique 0 a.parameters_sha256 b.parameters_sha256 ha.parameters_sha256
        hb.parameters_sha256 t.1 in
    ground (arith, s.0, i.0, c.0, t.0, p.0, p.1)

-- With zero bytes they need not be: a part of the session can be read as a part of the subject.
pub canonical_ambiguous :
    (b : Binding) (s x y : Text)
    → canonical (record b { subject = s ++ 0 ∷ x; session_id = y })
      ≡ canonical (record b { subject = s; session_id = x ++ 0 ∷ y })
unfolding canonical Join.join
canonical_ambiguous b s x y = simp append_assoc
