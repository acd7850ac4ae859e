-- ===== src/Tests/Crowds.antt =====
-- Bob's node, which takes a re-draw of Alice's (address 5) as done while its user asks for money from
-- a counterparty that it does not know (address 12).
use guac_rs.Prelude.{ℕ, ◌+◌, ◌≤◌, ◌≡◌, refl, some, none, [], ◌∷◌}
use guac_rs.External.{Address}
use guac_rs.Types.{other_re_drawing}
use guac_rs.Storage.{lookup, insert, get_counterparty}
use guac_rs.Node.{Node, check_for_counterparty}
use guac_rs.HttpServer.{notify_re_draw}
use guac_rs.ChannelManager.ReDraw.{re_draw_to}
use guac_rs.Interleave.User.{withdraw_call}
use guac_rs.Interleave.Jobs.{Job, own, asked}
use guac_rs.Interleave.Crowd.{
  Crowd, Active, Works, starts, works, goes, ends, Reach, begins, advances,
}
use guac_rs.Interleave.Serial.{IsSerial, last_entry, Reach-IsSerial}
use guac_rs.Interleave.Ledger.{all_put_in, all_taken_out, all_gained, crowd_keeps_books}
use guac_rs.HttpServer.Safety.{owned_with}
use guac_rs.History.{accrued_with}
use guac_rs.Tests.Samples.{num, num-IsExact, lib, bob, alice_channel, bob_channel}

abbrev waiting_bob : Node ℕ
waiting_bob = record {
  storage = (5, other_re_drawing (re_draw_to alice_channel 40 70) bob_channel) ∷ [];
  world = 0;
}

abbrev notice : Job
notice = asked (notify_re_draw 5)

abbrev wish : Job
wish = own 12 (withdraw_call "" 4)

mixed : (s : Crowd ℕ) × Reach num lib bob waiting_bob s
unfolding lookup insert get_counterparty check_for_counterparty
mixed = (
  _,
  advances
      (advances
        (advances
          (advances
            (advances
              (advances
                (advances
                  (advances
                    (advances
                      (advances (advances begins (starts _ notice refl))
                        (works 5 (goes _ notice _ _ _ refl)))
                      (starts _ wish refl))
                    (works 12 (goes _ wish _ _ _ refl)))
                  (works 5 (goes _ notice _ _ _ refl)))
                (works 12 (goes _ wish _ _ _ refl)))
              (works 5 (goes _ notice _ _ _ refl)))
            (works 12 (ends _ wish _ _ refl)))
          (works 5 (goes _ notice _ _ _ refl)))
        (works 5 (goes _ notice _ _ _ refl)))
      (works 5 (ends _ notice _ _ refl)),
)

Reach-IsSerial_example :
    let s = mixed.0 in
    IsSerial bob waiting_bob s.log
    × ((k : Address) → s.busy k ≡ none → lookup k s.node.storage ≡ last_entry k waiting_bob s.log)
    × ((k : Address) (a : Active ℕ) → s.busy k ≡ some a → (t : Crowd ℕ) × Works num lib bob k s t)
Reach-IsSerial_example = Reach-IsSerial num num-IsExact lib bob waiting_bob mixed.1

crowd_keeps_books_example :
    let s = mixed.0 in
    (owned_with (lookup 5 waiting_bob.storage) + all_put_in 5 s.log
      ≤ owned_with (lookup 5 s.node.storage) + all_taken_out 5 s.log)
    × (accrued_with (lookup 5 waiting_bob.storage) + all_gained 5 s.log
        ≡ accrued_with (lookup 5 s.node.storage))
crowd_keeps_books_example =
    crowd_keeps_books num num-IsExact lib bob waiting_bob 5 mixed.1 (unfold lookup in refl)
      (unfold mixed in refl)
