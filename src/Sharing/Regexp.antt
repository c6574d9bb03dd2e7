-- ===== src/Sharing/Regexp.antt =====
-- Package `regexp`, as far as the sharing config uses it: a compiled pattern answers for each text
-- whether it matches. The patterns come from the config, so the package is a parameter of the model.
use bcpfs.Prelude.{Bool, Option}
use bcpfs.Prelude.Bytes.{Bytes}

pub record RegexpPackage : Type 0 where
  -- regexp.Compile(pattern), with MatchString() of the result; `none` is an error.
  pub compile : Bytes → Option (Bytes → Bool)
