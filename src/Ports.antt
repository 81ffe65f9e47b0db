-- ===== src/Ports.antt =====
-- include/port.h: the port space of the x86. What a read returns and what an access does is the
-- device's; it is a parameter of the code that uses it.
use frog_os.Base.{ℕ}

pub record Ports : Type 1 where
  pub State : Type 0
  pub inportb : ℕ → State → ℕ × State
  pub inportw : ℕ → State → ℕ × State
  pub inportl : ℕ → State → ℕ × State
  pub outportb : ℕ → ℕ → State → State
  pub outportw : ℕ → ℕ → State → State
  pub outportl : ℕ → ℕ → State → State
