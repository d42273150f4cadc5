-- ===== src/Network/Tests.antt =====
-- The theorem on src/network.c where `connect` fails.
use camkit.Base.{◌≡◌, true, false, some, [], ◌∷◌, ok}
use camkit.Base.Resources.{replay, open_close}
use camkit.Network.{
  Answers, NetParam, udp, Resource-discrete, net_open, net_close, net_open-net_close,
}

abbrev answers : Answers
answers = record { malloc_handle = true; socket = λ kind. true; connect = λ kind server. false }

abbrev param : NetParam
param = record { type = udp; serip = some (1 ∷ []); serport = some 8000 }

net_open-net_close_example :
    replay Resource-discrete
      (open_close (net_open (λ p. p) (λ ip. 7) answers param (1 ∷ []) 8000) net_close).0
      []
    ≡ ok []
net_open-net_close_example = net_open-net_close (λ p. p) (λ ip. 7) answers param (1 ∷ []) 8000
