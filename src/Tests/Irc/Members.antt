-- ===== src/Tests/Irc/Members.antt =====
-- Two clients in the registry, of which the first leaves and comes back.
use network_protocol_cli_too.Common.{
  ℕ, zero, suc, ◌≡◌, ◌⊎◌, ◌<◌, refl, false, [], ◌∷◌, arith, length, replicate, pos, negsuc, ok,
}
use network_protocol_cli_too.CString.{Bytes, codes}
use network_protocol_cli_too.Irc.Server.{
  Client, Server, Reply, answer, index_of, register, disconnect, round, received_line, id_size,
}
use network_protocol_cli_too.Irc.Server.Registry.{IsValid, DistinctIds}
use network_protocol_cli_too.Irc.Server.Members.{members}
use network_protocol_cli_too.Irc.Server.Members.Changes.{
  Entered, Left, register-members, round-members,
}
use network_protocol_cli_too.Tests.Irc.{nobody, ann, empty, empty-IsValid}

abbrev bob : Client
bob = record { id = codes "bob"; socket = 5; port = pos 0; in_chat = false }

abbrev both : Server
both = record { clients = ann ∷ bob ∷ replicate 98 nobody; client_count = 2; waiting = [] }

both_distinct : DistinctIds 2 (ann ∷ bob ∷ replicate 98 nobody)
both_distinct zero zero a b hi hj gi gj e = refl
both_distinct zero (suc zero) a b hi hj gi gj e = ground arith
both_distinct (suc zero) zero a b hi hj gi gj e = ground arith
both_distinct (suc zero) (suc zero) a b hi hj gi gj e = refl
both_distinct (suc (suc i)) j a b hi hj gi gj e = absurd (omega arith)
both_distinct i (suc (suc j)) a b hi hj gi gj e = absurd (omega arith)

both-IsValid : IsValid both
both-IsValid = record {
  rows = refl;
  count = omega arith;
  room = omega arith;
  once = tt;
  distinct = both_distinct;
}

abbrev gone : Reply
gone = record {
  server = record { clients = bob ∷ bob ∷ replicate 98 nobody; client_count = 1; waiting = [] };
  sent = [];
  goes_on = false;
}

ann_leaves : round both (codes "ann") 4 [] [] ≡ ok gone
unfolding round disconnect
ann_leaves = refl

round-members_example :
    ((◌≡◌ {A = Bytes} [] []) × (gone.goes_on ≡ false) × Left both 4 gone.server)
    ⊎ ((0 < length {A = ℕ} []) × (members gone.server ≡ members both))
round-members_example = round-members both (codes "ann") 4 [] [] gone both-IsValid ann_leaves

abbrev welcomed : Reply
welcomed =
    answer
      (record {
        clients =
            record { id = codes "ann"; socket = 4; port = negsuc 0; in_chat = false }
            ∷ replicate 99 nobody;
        client_count = 1;
        waiting = [];
      })
      (codes "Client ann connected.\n")

ann_enters : register empty 4 (codes "ann\n") ≡ ok welcomed
unfolding register received_line index_of
ann_enters = refl

register-members_example :
    (id : Bytes) × (received_line id_size (codes "ann\n") ≡ ok id) × Entered empty 4 id welcomed
register-members_example =
    register-members empty 4 (codes "ann\n") welcomed empty-IsValid ann_enters
