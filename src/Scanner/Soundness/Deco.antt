-- ===== src/Scanner/Soundness/Deco.antt =====
-- The parts of `scan_and_update` that ask the Deco and the Chester keep the database sound.
use homesentinel.Prelude.{
  Text, Option, none, some, List, not, text_eq, any, Outcome, Bool-cases, inl, inr, refl,
}
use homesentinel.Db.Schema.{Device}
use homesentinel.Scanner.State.{Env}
use homesentinel.Scanner.DecoClients.{
  DecoClient, DecoNode, ChesterStatus, deco_supplement, deco_nodes, chester_check, run_outcome,
  name_if_missing, client_known, client_new, client_found, name_found, supplement_online, sync_name,
  supplement_mac, supplement_client, see_nodes, name_node, name_node_at, nickname_of, node_mac,
  chester_at, chester_online,
}
use homesentinel.Scanner.Soundness.Rules.{
  Keeps, Keeps-bind, Keeps-attempt, Keeps-for_each, Keeps-pure, Keeps-return,
}
use homesentinel.Scanner.Soundness.Effects.{basic}

module _ (env : Env) where
  name_if_missing-Keeps : (name : Text) (d : Device) → Keeps (name_if_missing env name d)
  unfolding name_if_missing
  name_if_missing-Keeps name d = search basic depth 5

  client_found-Keeps :
      (mac ip name : Text) (d : Option Device) → Keeps (client_found env mac ip name d)
  unfolding client_new client_known
  client_found-Keeps mac ip name none = search basic depth 12
  client_found-Keeps mac ip name (some d) = search (basic, name_if_missing-Keeps) depth 9

  name_found-Keeps : (name : Text) (d : Option Device) → Keeps (name_found env name d)
  name_found-Keeps name none = Keeps-return tt
  name_found-Keeps name (some d) = name_if_missing-Keeps name d

  supplement_online-Keeps : (mac ip name : Text) → Keeps (supplement_online env mac ip name)
  unfolding supplement_online
  supplement_online-Keeps mac ip name = search (basic, client_found-Keeps) depth 9

  sync_name-Keeps : (mac name : Text) → Keeps (sync_name env mac name)
  unfolding sync_name
  sync_name-Keeps mac name = search (basic, name_found-Keeps) depth 9

  supplement_mac-Keeps :
      (mac : Option Text) (ip name : Text) → Keeps (supplement_mac env mac ip name)
  supplement_mac-Keeps none ip name = Keeps-pure (λ w. refl)
  supplement_mac-Keeps (some mac) ip name = record {
    keeps = λ w v. elim (Bool-cases (not (any (text_eq mac) w.online_macs))) [
      | inl new ↦ rw new ((supplement_online-Keeps mac ip name).keeps w v)
      | inr seen ↦ rw seen ((sync_name-Keeps mac name).keeps w v)
    ];
  }

  supplement_client-Keeps : (c : DecoClient) → Keeps (supplement_client env c)
  unfolding supplement_client
  supplement_client-Keeps c = search (basic, supplement_mac-Keeps) depth 5

  run_outcome-Keeps : {A : Type 0} (r : Outcome A) → Keeps (run_outcome r)
  run_outcome-Keeps r = Keeps-pure (λ w. refl)

  pub deco_supplement-Keeps :
      (clients : Outcome (List DecoClient)) → Keeps (deco_supplement env clients)
  unfolding deco_supplement
  deco_supplement-Keeps clients =
      Keeps-attempt
        (Keeps-bind (run_outcome-Keeps clients) (λ cs. Keeps-for_each cs supplement_client-Keeps))
        (λ e. Keeps-return tt)

  name_node-Keeps : (n : DecoNode) → Keeps (name_node env n)
  unfolding name_node
  name_node-Keeps n = at (node_mac n)
    where
      at : (mac : Option Text) → Keeps (name_node_at env mac (nickname_of env n))
      at none = Keeps-return tt
      at (some mac) = search (basic, name_found-Keeps) depth 9

  see_nodes-Keeps : (ns : List DecoNode) → Keeps (see_nodes ns)
  unfolding see_nodes
  see_nodes-Keeps ns = Keeps-pure (λ w. refl)

  pub deco_nodes-Keeps : (nodes : Outcome (List DecoNode)) → Keeps (deco_nodes env nodes)
  unfolding deco_nodes
  deco_nodes-Keeps nodes =
      Keeps-attempt
        (Keeps-bind (run_outcome-Keeps nodes)
          (λ ns. Keeps-bind (see_nodes-Keeps ns) (λ u. Keeps-for_each ns name_node-Keeps)))
        (λ e. Keeps-return tt)

  chester_at-Keeps : (mac ip : Option Text) → Keeps (chester_at env mac ip)
  chester_at-Keeps none ip = Keeps-return tt
  chester_at-Keeps (some mac) ip = search basic depth 9

  chester_online-Keeps : (c : Option ChesterStatus) → Keeps (chester_online env c)
  chester_online-Keeps none = Keeps-return tt
  chester_online-Keeps (some c) = search (basic, chester_at-Keeps) depth 9

  pub chester_check-Keeps :
      (status : Outcome (Option ChesterStatus)) → Keeps (chester_check env status)
  unfolding chester_check
  chester_check-Keeps status =
      Keeps-attempt (Keeps-bind (run_outcome-Keeps status) chester_online-Keeps)
        (λ e. Keeps-return tt)
