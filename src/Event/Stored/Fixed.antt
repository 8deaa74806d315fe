-- ===== src/Event/Stored/Fixed.antt =====
-- Events that the constructor leaves as they are, which is what `_to_entity` needs to give back the
-- event that was stored.
use prefeitura_anti_hack.Prelude.{◌≡◌, String, false, arith, inl, inr, Bool-cases}
use prefeitura_anti_hack.Prelude.Text.{is_empty}
use prefeitura_anti_hack.Prelude.Python.{ok}
use prefeitura_anti_hack.Prelude.Runtime.{Runtime}
use prefeitura_anti_hack.Incident.Transitions.{IsUtc-valid}
use prefeitura_anti_hack.Sanitize.Masking.{sanitize_payload_idem}
use prefeitura_anti_hack.Event.{SecurityEvent, new_event, normalized, evidence_text}
use prefeitura_anti_hack.Event.Laws.{normalized_of_ok, normalized-times}

module _ (rt : Runtime) (redact : String → String) where
  abbrev pub IsFixed : SecurityEvent → Type 0
  IsFixed e = new_event rt redact e ≡ ok e

  module _ (hashed : (s : String) → is_empty (rt.sha256 s) ≡ false)
      (redacted_once : (s : String) → redact (redact s) ≡ redact s) where
    normalized_idem :
        (e : SecurityEvent) → normalized rt redact (normalized rt redact e) ≡ normalized rt redact e
    unfolding normalized evidence_text
    normalized_idem e = elim (Bool-cases (is_empty e.evidence_hash)) [
      | inl p ↦ ground (
        arith,
        p,
        hashed (evidence_text rt redact e),
        sanitize_payload_idem rt.lower redact redacted_once e.payload,
      )
      | inr p ↦ ground (arith, p, sanitize_payload_idem rt.lower redact redacted_once e.payload)
    ]

    pub new_event-IsFixed : (e f : SecurityEvent) → new_event rt redact e ≡ ok f → IsFixed f
    unfolding new_event
    new_event-IsFixed e f h =
        let (p, q, r) = normalized_of_ok rt redact e f h in
        let (o, c) = normalized-times rt redact e in
        rw p (ground (arith, o, c, IsUtc-valid q, IsUtc-valid r, normalized_idem e))
