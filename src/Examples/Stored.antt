-- ===== src/Examples/Stored.antt =====
-- What is stored and restored, at concrete inputs.
use mathlib.Core.Option.{some-injective}
use go_hpc_rbft.Base.{
  ◌≡◌, refl, sym, ap, subst, inl, inr, false, [], ◌∷◌, Option, none, some, String, arith,
  if◌then◌else◌, str_eq,
}
use go_hpc_rbft.Base.Maps.{lookup, insert, lookup-In}
use go_hpc_rbft.Base.Words.{word}
use go_hpc_rbft.Base.Keys.{decimal}
use go_hpc_rbft.Messages.{PrePrepare, Prepare, Commit}
use go_hpc_rbft.Certs.{VoteId, MsgId, MsgCert, CertStore, msg_id_eq, prepare_id, commit_id}
use go_hpc_rbft.Search.{binary_search}
use go_hpc_rbft.Wrf.{wrf_select_node_by_voting_power}
use go_hpc_rbft.Tracker.{recent_processor}
use go_hpc_rbft.Chain.{ChainConfig, set_view, set_last_stable_view, update_primary_id, recover_info}
use go_hpc_rbft.Persist.{qpc_key, values, persist_q_set}
use go_hpc_rbft.Persist.Read.{RestoreError, parse_qpc_key, restore_q_set}
use go_hpc_rbft.Persist.RoundTrip.{parse_qpc_key-qpc_key}
use go_hpc_rbft.Persist.Restore.{IsStorable}
use go_hpc_rbft.Persist.Certs.{part_of, stores, proposal, restore_q_set-persist_q_set}
use go_hpc_rbft.Persist.View.{
  NewView, PersistOutcome, persist_new_view, install_view, install_infos, slice_to_map,
  restore_view,
}
use go_hpc_rbft.Persist.View.Same.{restarted, restore_view-persist_new_view}
use go_hpc_rbft.Votes.Tally.{Tally, Tallied}
use go_hpc_rbft.Votes.Propose.{pre_prepare_key}
use go_hpc_rbft.Persist.Recover.{Unmarshallers, Restored, restore_cert}
use go_hpc_rbft.Persist.Restart.Whole.{SameVotes}
use go_hpc_rbft.Persist.Restart.Final.{Marshallers, stored_certs, restore_cert-SameVotes}
use go_hpc_rbft.Examples.Voting.{replica}
use go_hpc_rbft.Examples.Chains.{small_chain, full_info}

abbrev twelve : MsgId
twelve = record { v = 3; n = 12; d = "ab" }

prints : qpc_key "qset" twelve ≡ "qset.3.12.ab"
unfolding qpc_key decimal
prints = refl

parse_qpc_key-qpc_key_example : parse_qpc_key (qpc_key "qset" twelve) "qset" ≡ inr twelve
parse_qpc_key-qpc_key_example =
    parse_qpc_key-qpc_key "qset" twelve (refl, (refl, (refl, (refl, tt)))) (omega (arith, word))
      (omega (arith, word)) (refl, (refl, tt))

-- A view of 2^63 is stored and does not parse.
large_view :
    parse_qpc_key (qpc_key "qset" (record twelve { v = 0x8000_0000_0000_0000 })) "qset"
    ≡ inl RestoreError.parse_failed
large_view =
    parse_qpc_key-qpc_key "qset" (record twelve { v = 0x8000_0000_0000_0000 })
      (refl, (refl, (refl, (refl, tt)))) (omega (arith, word)) (omega (arith, word))
      (refl, (refl, tt))

abbrev proposed : PrePrepare
proposed = record {
  replica_id = 1;
  view = 3;
  sequence_number = 12;
  batch_digest = "ab";
  hash_batch = some (record {
    request_hash_list = "t" ∷ [];
    de_duplicate_request_hash_list = [];
    timestamp = 7;
    proposer = 1;
  });
}

abbrev cert_of : Option PrePrepare → MsgCert
cert_of p = record {
  pre_prepare = p;
  sent_prepare = false;
  prepare = [];
  sent_commit = false;
  commit = [];
  sent_execute = false;
  is_config = false;
}

-- The second cert has no pre-prepare.
abbrev two_certs : CertStore
two_certs =
    (twelve, cert_of (some proposed)) ∷ (record { v = 3; n = 13; d = "" }, cert_of none) ∷ []

abbrev one_byte : PrePrepare → Option String
one_byte p = some "p"

abbrev from_byte : String → Option PrePrepare
from_byte s = if str_eq s "p" then some proposed else none

storable : IsStorable twelve
storable = (omega arith, (omega arith, (refl, (refl, tt))))

restores_proposals :
    restore_q_set from_byte (some (stores (λ x. persist_q_set one_byte (proposal x.1)) two_certs))
    ≡ (part_of proposal two_certs, none)
unfolding lookup
restores_proposals =
    restore_q_set-persist_q_set one_byte from_byte two_certs (refl, (refl, tt))
      (
        (λ p e. ap pre_prepare_key (sym (some-injective proposed p e))),
        ((λ p e. absurd (ground arith)), tt),
      )
      ((λ p e. (storable, ("p", (refl, e)))), ((λ p e. absurd (ground arith)), tt))

abbrev second_view : NewView
second_view = record {
  view = 2;
  validator_dynamic_info = full_info 1 ∷ full_info 2 ∷ full_info 3 ∷ full_info 4 ∷ [];
  passed_on = "";
}

abbrev from_bytes : String → Option NewView
from_bytes s = if str_eq s "v" then some second_view else none

abbrev settled_chain : ChainConfig
settled_chain = record small_chain { view = 2; last_stable_view = 2; primary_id = 3 }

persists :
    persist_new_view (λ _. 25) (λ _. some "v") false second_view small_chain
    ≡ PersistOutcome.persisted "v" settled_chain
unfolding persist_new_view install_view set_view set_last_stable_view install_infos slice_to_map
    update_primary_id wrf_select_node_by_voting_power binary_search lookup insert recent_processor
persists = refl

restore_view-persist_new_view_example :
    restore_view (λ _. 25) from_bytes (some "v") (restarted small_chain [] [] 0)
    ≡ some (second_view, settled_chain)
unfolding recover_info
restore_view-persist_new_view_example =
    restore_view-persist_new_view (λ _. 25) (λ _. some "v") from_bytes false second_view small_chain
      settled_chain "v" [] [] 0 persists refl (omega arith) (refl, (refl, (refl, (refl, tt))))

abbrev prepare_of_two : Prepare
prepare_of_two = record { replica_id = 2; view = 3; sequence_number = 12; batch_digest = "ab" }

abbrev commit_of_two : Commit
commit_of_two = record { replica_id = 2; view = 3; sequence_number = 12; batch_digest = "ab" }

abbrev id_of_two : VoteId
id_of_two = record { replica = 2; view = 3; seq = 12; digest = "ab" }

abbrev voted : MsgCert
voted = record (cert_of (some proposed)) {
  prepare = (id_of_two, prepare_of_two) ∷ [];
  commit = (id_of_two, commit_of_two) ∷ [];
}

abbrev voted_certs : CertStore
voted_certs = (twelve, voted) ∷ []

voted_certs-Tallied : Tallied voted_certs
unfolding prepare_id commit_id lookup
voted_certs-Tallied idx cert found = elim (lookup-In idx voted_certs cert found) [
  | inl same ↦
      subst (λ (x : MsgId × MsgCert). Tally x.0 x.1) (sym same)
        (record {
          prepares = ((refl, refl), tt);
          commits = ((refl, refl), tt);
          prepares_apart = (refl, tt);
          commits_apart = (refl, tt);
        })
  | inr nowhere ↦ absurd nowhere
]

abbrev one_text : Marshallers
one_text = record { pre_prepare = one_byte; pset = λ _. some "ps"; cset = λ _. some "cs" }

abbrev from_text : Unmarshallers
from_text = record {
  pre_prepare = from_byte;
  pset = λ _. some (prepare_of_two ∷ []);
  cset = λ _. some (commit_of_two ∷ []);
  vc_pq = λ _. none;
}

-- A replica that has executed up to number 1, so the cert of number 12 is not executed.
abbrev blank : Restored
blank = record {
  replica = record replica { cert_store = []; last_exec = 1 };
  qlist = [];
  plist = [];
}

restore_cert-SameVotes_example :
    (cert' : MsgCert) × ((lookup twelve
          (restore_cert from_text
            (stored_certs one_text voted_certs (some []) (some []))
            blank).replica.cert_store
        ≡ some cert')
      × (SameVotes voted cert' × (cert'.sent_execute ≡ false)))
unfolding lookup values
restore_cert-SameVotes_example =
    restore_cert-SameVotes one_text from_text voted_certs (some []) (some []) blank refl (refl, tt)
      voted_certs-Tallied ((λ p e. ap pre_prepare_key (sym (some-injective proposed p e))), tt)
      ((λ p e. (storable, ("p", (refl, e)))), tt) ((λ p e. (storable, ("ps", (refl, e)))), tt)
      ((λ p e. (storable, ("cs", (refl, e)))), tt) twelve voted refl
