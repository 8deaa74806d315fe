-- ===== src/Prelude/Runtime.antt =====
-- Functions of Python's standard library whose results the code only passes on: Unicode case
-- mapping, SHA-256, and the texts of UUIDs and of instants. The two laws are documented formats:
-- the text of a UUID or of an instant holds hexadecimal digits.
use Prim.Native.Nat.{ℕ}
use Prim.Native.String.{String}
use prefeitura_anti_hack.Prelude.Int.{ℤ}
use prefeitura_anti_hack.Prelude.Text.{HasInk}

pub record Runtime : Type 0 where
  pub lower : String → String
  pub upper : String → String
  pub sha256 : String → String
  pub uuid_text : ℕ → String
  pub isoformat : ℤ → String
  pub uuid_text_ink : (u : ℕ) → HasInk (uuid_text u)
  pub isoformat_ink : (t : ℤ) → HasInk (isoformat t)
