-- ===== src/Lib.antt =====
-- DealFinder: a model of the service code under dealfinder/, with the theorems that make it correct.
--
-- The service answers shopping queries over price data of several stores. Around the scoring and
-- retrieval code, which is numeric, stand the parts that decide who may ask, how often, at what
-- price, and what may be kept; those are modelled here. A request passes the per-path limiter, its
-- bearer token is verified against the project's signing keys, the verified claims become a
-- principal, and searches are metered against the plan that a paid checkout granted. The search
-- gathers the stores' offers, scores them with the two-signal verdict where a store's terms allow it,
-- and shows eBay's listings in a box of their own; the question routes retrieve listings, answer from
-- them, and review the answer. Two scheduled
-- jobs run beside the requests: the suggestions job over the saved searches, and the purge of the
-- rows that a store's terms do not let stay.
--
-- Files and code:
--   Base          Python's values: tests, lists, dict (an association list in insertion order),
--                 exceptions (Result), sorted, and what is called of str
--   Compliance    dealfinder/compliance.py. Compliance.Window is SlidingWindowRateLimiter: `allow`,
--                 `remaining`, and `evict` for the loop over the deque. A time is a clock tick.
--                 Compliance.Subjects is DataSubjectStore, Compliance.Abuse is AbuseDetector
--   Safety        dealfinder/safety.py: detect_prompt_injection and AuditLog
--   Ratelimit     dealfinder/ratelimit.py: Limiter, with `check` split into `check_window` (the hard
--                 ceiling), `admit` (the call of `allow` and after it) and `shrink` (the clean-up).
--                 It uses Compliance.Window as the code does. A time is a millisecond
--   Auth          dealfinder/auth.py and dealfinder/tenancy.py. Auth.Jwks is _Jwks, with `key_for`
--                 split at the lock into `begin` and `finish`; Auth.Claims reads verified claims;
--                 Auth.Verify is verify_token and what stands on it. A time is a second
--   Billing       dealfinder/billing.py: plans, metering, the checkout request, the webhook
--   Userstore     dealfinder/userstore.py: the watchlist and the saved searches, as tables of the rows
--                 that row-level security shows to their user
--   Worker        dealfinder/worker.py: the memory of a saved search and the suggestions job
--   Licensing     dealfinder/licensing.py, and Licensing.Retention for dealfinder/retention.py.
--                 A time is a second
--   Aggregate     dealfinder/aggregate.py: `gather` is `aggregate` up to the products found, with the
--                 breaker's cooldown table; `best_offers` is its exact-key pass, and `ingest` that of
--                 dealfinder/ingest.py; Aggregate.Reply is the reply, over `best_offers` and Dedup. A
--                 time is a second, a price is in cents
--   Dedup         dealfinder/dedup.py: `dedup_by_embedding`; Dedup.Forest is its union-find
--   Context       dealfinder/context.py: pack_deals, lost_in_the_middle and compact_history
--   Tools         dealfinder/tool_trust.py: the vetting of tools, the edit distance, and the check of
--                 a dependency's name
--   Dealscore     dealfinder/dealscore.py: the two-signal verdict
--   Shop          dealfinder/shop.py. Shop.Ebay is `ebay_box`, with its block under the first lock as
--                 `peek` and the one under the second as `store`; Shop.Scoring is `score_offers`;
--                 Shop.Search is `attribution_for`, `shop_search` and `check_deal`
--   Sources       dealfinder/live_sources.py: Sources.Retail, Sources.Feeds, Sources.Bestbuy and
--                 Sources.Ebay are the connectors, from a reply on; Sources.Enabled is
--                 `enabled_sources`, over Licensing. Its Product is dealfinder/schema.py's
--   Migrate       dealfinder/migrate.py, and `schema_current` of dealfinder/db.py, over a record of
--                 what psycopg's connection promises
--   Rag           dealfinder/rag.py: `retrieve`; Rag.Grounding is `is_grounded`, Rag.Answers is `answer`
--                 and `_deterministic_answer` (`extract`). Rag.Review is dealfinder/orchestrate.py,
--                 Rag.Agentic is dealfinder/agentic_rag.py with its loop as `run_hops`
--   Serve         dealfinder/serve.py. Serve.Edge is the two middlewares, over Ratelimit; Serve.Ready is
--                 `/readyz` and `_DB`; Serve.Accounts is the account routes, over Userstore;
--                 Serve.Shopper is `search` with `_remember_offers`; Serve.Stream is
--                 `_stream_search`, over Aggregate, Licensing and Shop
--   Flows         dealfinder/flows.py: the contract on the rows, and `_run_pipeline` up to the gate
--   Mlops         dealfinder/mlops.py, over Mlops.Evals for dealfinder/evals.py; Mlops.Costs is
--                 CostTracker of dealfinder/ops.py
-- Each definition stands under the name of the function it models, and a comment names the
-- expression where a helper stands for a part of a function. The module Tests of each part runs the
-- definitions on small inputs.
--
-- Parameters: PyJWT's decoding and key sets, the network's answers, the clock, the timed lock and
-- what other threads left in the cache, what each store answers, the environment, Stripe's client
-- and signature check, the similarity of titles, the catalog search with its embeddings and price
-- models, the token count of a line, `re.search`, `str.lower` and `str.strip`. A Python set is a
-- list in the order of its iteration. A price is in whole cents and a signal an exact fraction, so
-- the rounding of floats and NaN are left out, and a text that the code assembles only to show is
-- a constructor with what it is made of. The trained price models, the peer estimate, the catalog
-- search, the language model, regular expressions and the formatting of numbers are parameters.
-- Times, which the code holds as floats, are whole numbers of the unit named above, and a
-- difference that the code compares with a bound is written as a sum, since subtraction on natural
-- numbers stops at 0. A budget of tokens and a limit are not negative. The loops are structural,
-- and the loop of hops runs on `max_hops`, as in the code; `find` of Dedup.Forest has fuel, the
-- number of the pairs to unite, and `batches` of Sources.Bestbuy the number of the SKUs; their
-- theorems say that it is enough.
--
-- Not modelled: the price models, features, embeddings and ranking scores (floating point over
-- numpy, sklearn and torch), the requests of the store connectors, the median and the discounts of
-- an aggregated reply, the other HTTP routes, the vector store, the stages of the snapshot pipeline
-- after its gate, the rest of the database layer, and the deployment scripts.
pub mod Base
pub mod Safety
pub mod Compliance
pub mod Ratelimit
pub mod Auth
pub mod Billing
pub mod Worker
pub mod Shop
pub mod Sources
pub mod Dedup
pub mod Flows
pub mod Serve
pub mod Mlops
pub mod Rag
pub mod Migrate
pub mod Dealscore
pub mod Userstore
pub mod Context
pub mod Aggregate
pub mod Tools
pub mod Licensing
