-- ===== src/Zeroize/Volatile.antt =====
-- A concrete `zeroize`: what the program relies on can be had.
use secbuf.Prelude.{refl, length, replicate}
use secbuf.Zeroize.{Zeroize}

abbrev pub volatile : Zeroize
volatile = record {
  slice = λ bs. replicate (length bs) 0;
  vec = λ v. record { mem = replicate (length v.mem) 0; len = 0 };
  slice-eq = λ bs. refl;
  vec-mem = λ v. refl;
  vec-len = λ v. refl;
}
