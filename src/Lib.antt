-- ===== src/Lib.antt =====
-- The identity trust engine of PRAMAAN: backend/app of the repository, and the scripts beside it whose
-- logic is its own (src, scripts).
--
-- An event of an identity comes in over HTTP (main.py), is authenticated (auth.py) and scored by the
-- engine (risk_engine.py): features (features.py), the model (model_loader.py), a deterministic risk,
-- drift detection (drift.py), the trust update, the policy (policy.py) and, where the model did not
-- answer, the degradation rule (resilience.py). The state of the identity is loaded from a store and
-- committed by compare-and-set (state_store.py). A behavioural signal counts only with two signed
-- tokens (attestation.py), and a step-up only with one (verifier.py). The client gets a generic
-- decision and the audit chain (audit.py) the full assessment (schemas.py, explain.py); personal
-- material is kept under a key of each identity (keystore.py). In the scaled-out topology the ingress
-- (ingress.py) puts events on a Kafka topic (bus.py), pods score them (scoring_pod.py) and write the
-- audit table and the decisions (stores.py), which the ingress is polled for.
--
-- Files:
--   Common       Shared names, lists, results, dictionaries and integers over the native numbers.
--   Float        Python's float as an interface: operations, and laws that hold of every double, NaN
--                included. Float/Fixed is an instance with all laws, on which the tests run.
--   Schemas      backend/app/schemas.py
--   Policy       backend/app/policy.py and backend/app/resilience.py
--   State        backend/app/state_store.py: states and the in-memory store. State/Schedule lets any
--                number of clients load and commit in any order, State/Locks under the locks of the
--                store; State/Json has to_json and from_json.
--   Features     backend/app/features.py
--   Drift        backend/app/drift.py
--   Explain      backend/app/explain.py, with REASON_TEXT, WEIGHTS and _explain of risk_engine.py
--   Verifier     backend/app/verifier.py; Verifier/Backends has the signature backends, Verifier/Base64
--                the texts in a token (_b64e and _b64d, a parameter of the rest), and Verifier/Service
--                is backend/app/verifier_service.py
--   Attestation  backend/app/attestation.py
--   Engine       backend/app/risk_engine.py: Engine/Trust (configuration and trust update),
--                Engine/Attempt (the body of the loop of assess), Engine/Assess (the loop and the
--                assessment), Engine/StepUp (apply_verified_step_up), Engine/Reachable (sequences of
--                both)
--   Audit        backend/app/audit.py
--   Keystore     backend/app/keystore.py
--   Durable      backend/app/stores.py: the vault, the decisions and the audit chain as tables;
--                Durable/Redis has the Redis store of backend/app/state_store.py, with its
--                refinement of the store in memory in Durable/Redis/Matches; Durable/Races has appends
--                that race on the audit table
--   Auth         backend/app/auth.py
--   Artifact     backend/app/model_loader.py: which model is served and saved (ServingModel is in
--                Engine/Trust)
--   Config       backend/app/config.py
--   Api          backend/app/main.py: Api/Events (events, erasure, reading), Api/StepUps (the step-up
--                endpoint), Api/Cache (idempotency cache and rate counting); Api/Verified joins the
--                step-up endpoint with the verifier service and the engine
--   Privacy      backend/app/privacy.py
--   Bus          backend/app/bus.py: the loops that wait for the broker
--   Pipeline     backend/app/ingress.py and backend/app/scoring_pod.py, over Durable and Engine
--   Offline      src/export_models.py (rows and replay); Offline/DpExport has src/dp_export.py, and
--                Offline/Friction src/coldstart_metric.py, src/fairness_audit.py and
--                src/impossible_travel_lift.py
--   Metrics      src/eval_full.py, src/pramaan_eval.py and src/seed_sweep.py: operating points
--   Training     src/train_rba_full.py, and the splits of src/tune.py and src/seed_sweep.py;
--                Training/UserDays has cert_features of src/train.py, and Training/PaySim its
--                paysim_features and paysim_fit
--   Simulator    simulator/attack_low_and_slow.py
--   Datasets     src/download_data.py
--   Headline     scripts/check_headline.py
--   Tests        Concrete inputs and runs.
--
-- What the code takes from elsewhere is a parameter: the arithmetic of floats (Float), numpy's clip and
-- scipy's p-value (Libs, with numpy's documented clip as IsClip), base64, JSON and signatures (Codec,
-- Signer, SignatureVerifier), hashes (Crypto, Hashing), Fernet (Vault), joblib (Reader, Writer), the
-- reader of the key registry and the check of public keys (Outside), and the loaded model. Times, fresh
-- identifiers and generated keys are arguments. A call that raises returns none or an error. What a
-- JSONB column gives back of a payload is Table.jsonb, and that it keeps texts is KeepsText; a message on
-- the topic that is not JSON is none. The scripts take pandas (sort_values, Pandas, Tools), numpy and
-- scikit-learn (Numerics), the noise (Draws), the network (Outside), the files, and Python's float of a
-- text and comparison of lists (Python) in the same way; what scikit-learn, numpy and pandas document is
-- stated as IsNumerics, IsSample and IsTools.
--
-- The two loops of the engine run six attempts (_CAS_RETRIES), as recursion on the number of attempts
-- that are left. What other clients do to the store between an attempt's load and its commit is a
-- function for each attempt; the lock of the store is left out there, so that the theorems hold without
-- it; State/Locks has it. The attempts at reaching the broker are counted down from their number, 40 by
-- default, and the turns of the simulator from theirs; all other loops run over lists.
--
-- Not modelled: the framework around the endpoints and the dashboard, the lock of the store on
-- Redis, transactions that race on the tables of the vault and the decisions, a message that Kafka
-- delivers twice, the training of models, plots and reports, calibration, costs and bootstrap of
-- eval_full.py, the privacy accountant, and the demo traffic.
pub mod Common
pub mod Float
pub mod Schemas
pub mod Policy
pub mod State
pub mod Simulator
pub mod Features
pub mod Drift
pub mod Explain
pub mod Verifier
pub mod Attestation
pub mod Audit
pub mod Keystore
pub mod Auth
pub mod Artifact
pub mod Durable
pub mod Config
pub mod Api
pub mod Engine
mod Tests
pub mod Bus
pub mod Pipeline
pub mod Privacy
pub mod Headline
pub mod Metrics
pub mod Offline
pub mod Training
pub mod Datasets
