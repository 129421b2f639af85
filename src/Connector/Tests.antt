-- ===== src/Connector/Tests.antt =====
-- The theorems on the connector, applied to one attempt.
use base_linux.Base.{refl, true, false, none, some, [], arith, ◌==◌}
use base_linux.Connector.{disconnected, connecting, Connector}
use base_linux.Connector.Steps.{IsValid}

abbrev fresh : Connector
fresh = record {
  running = false;
  states = disconnected;
  channel = none;
  watching = false;
  retry_delay = 1000;
  resets = 0;
  opened = λ _. false;
  closed = [];
  handed = [];
}

fresh-IsValid : IsValid fresh
fresh-IsValid = record {
  opened = λ j. refl;
  resets = refl;
  channel = refl;
  watching = refl;
  delay = ground arith;
}

-- connects with the descriptor 9
abbrev attempt : Connector
attempt = record fresh {
  running = true;
  states = connecting;
  channel = some 9;
  watching = true;
  opened = λ j. j == 9;
}
