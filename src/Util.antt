-- ===== src/Util.antt =====
-- util.rs: `Either`.
use btc_rpc_proxy.Prelude.{Option, none, some}

pub data Either (L R : Type 0) : Type 0 where
  left : L → Either L R
  right : R → Either L R

unfoldable pub into_left : {L R : Type 0} → Either L R → Option L
into_left (left a) = some a
into_left _ = none

unfoldable pub into_right : {L R : Type 0} → Either L R → Option R
into_right (right a) = some a
into_right _ = none
