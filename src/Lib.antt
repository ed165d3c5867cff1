-- ===== src/Lib.antt =====
-- A verification library for the applicant tracking backend: the part of the Python backend that
-- decides (state machines, permissions, tenancy, sessions, pagination, scoring rules, retention)
-- as executable definitions, with the theorems about them.
--
-- The request handlers read and write a database, Redis and a queue. A handler is a function from
-- the store it finds to the store it leaves, beside its answer or the exception it raises
-- (Exec.antt). A database table is the list of its rows, the newest first; a row's id is a number,
-- and so is a moment. Fresh ids, clocks, tokens, Unicode tables and the calendar come from
-- libraries, and are parameters; so is the great-circle distance (app/core/geoip.py), which is
-- real-valued trigonometry.
--
-- The parts, and the files that model them:
--
-- Prelude.antt (and Prelude/): the names of the libraries that the other modules share, tests on
--     numbers, lists measured by native numbers, a stable sort.
--
-- StateMachine.antt (StateMachine/): app/core/state_machine.py. The statuses of an application,
--     get_allowed_next_statuses and is_transition_allowed; Moves gives the diagram as a relation.
--
-- Tenancy.antt (Tenancy/): app/core/tenancy.py. The tenant context of a token, the criteria that
--     SQLAlchemy adds to every query (visible, visible_shared; loads of columns of a row that is
--     already in the session are exempt) and the stamp of new rows.
--
-- Board.antt (Board/): the database of jobs, candidates, applications and the history of statuses,
--     with the handlers that write an application's status: update_application_status
--     (app/routers/applications.py), respond_to_offer (app/routers/candidates.py), upload_resume
--     (app/routers/resumes.py) with get_or_create_candidate_profile (app/core/candidate_utils.py),
--     and the report get_recruitment_funnel (app/routers/analytics.py). Reach is the relation of
--     all stores that sequences of these handlers, by any users and tenants, lead to; Trail,
--     Stages, Distinct and Tables hold the invariant's parts; Once is about two requests with the
--     same expected status, Course about a whole sequence of them. Uploading stops where the file
--     goes to the object store: its bytes are a parameter.
--
-- Sessions.antt (Sessions/): app/core/sessions.py. Redis.antt has the keys with their time to
--     live, Anomaly.antt detect_anomaly and assess_login, Lifecycle.antt create_session,
--     rotate_refresh and revoke_session, Activity.antt list_sessions, revoke_all_sessions and
--     touch_session; Rotation and Revocation have what they guarantee. The loop of rotate_refresh
--     takes one Turn per attempt, which says whether another client wrote the watched key between
--     WATCH and EXEC; three turns are the bound of the source.
--
-- Pagination.antt (Pagination/): app/core/pagination.py. paginate_by_cursor on the list of the
--     rows of a query; Order has the order of ORDER BY and of the boundary, Beyond the rows after
--     a boundary, Walk a client that follows next_cursor. Its fuel is the number of requests, and
--     one request for each row is enough.
--
-- Experience.antt (Experience/): app/core/experience_analyzer.py. Duration.antt is _parse_duration
--     on code points, Intervals.antt _merge_intervals_and_sum_years, and the parent has
--     _validate_entry and analyze_work_experience.
--
-- Retention.antt (Retention/): backup/retention.py. plan_deletions and _expired_snapshots; that an
--     item is the newest one is its place at the end of the ordered list. Grounds describes,
--     without the code's own tests, which other backups allow a deletion.
--
-- ExperienceAgent.antt (ExperienceAgent/): app/agents/experience_agent.py. run_experience_agent
--     with its overlaps, its peak of concurrent roles and its flags; Calendar has the conversion
--     of Shamsi years, Totals the total against the overlaps.
--
-- Supervisor.antt (Supervisor/): app/agents/supervisor.py. _failed and aggregate, where the
--     outputs of three agents become one analysis by the rules R1 to R4; Conflicts states what the
--     rules guarantee.
--
-- Auth.antt (Auth/): app/core/deps.py (get_current_user) and, of app/routers/auth.py,
--     refresh_access_token, logout and revoke_my_session, over the store of Sessions with the
--     users and their cache; Ending has what an ended session can still do, and Context which
--     tenant context the middleware of app/core/tenancy.py gives to an admitted request. The age
--     of a cached user is not modelled: a cached user may be any.
--
-- Search.antt (Search/): app/core/search_query.py and the blind index of app/core/crypto.py. Words
--     has resume_search_words and parse_search_query on code points, where the split at the
--     operators is a scan that passes over the characters of a match; the parent has
--     blind_index_token, blind_index_tokens and resume_blind_index_condition; Meaning reads a
--     query on plain words.
--
-- Crypto.antt (Crypto/): app/core/crypto.py. Columns has what EncryptedText and EncryptedJSON
--     store and read; Batches the loop of _reencrypt over one table, with rounds as fuel, of which
--     one more than the table has rows is enough; the parent the rows of both tables and
--     _reencrypt. Rounds and Written follow the loop, Rotation the values. MultiFernet and JSON
--     are parameters, and the random bytes of a token are a function of the row and the column.
--
-- Interviews.antt (Interviews/): app/routers/interviews.py and app/core/interview_scheduler.py.
--     The handlers over the interviews of one tenant and the jobs of the scheduler; Reminders has
--     the calls of rq-scheduler, after how many of which Redis fails being a part of each Turn.
--     Owned and Reach follow the jobs through all requests. A reminder is cancelled at once, and a
--     row is only written at the end, as the transaction does it.
--
-- Auth/Passwords.antt: the one-time codes of app/routers/auth.py (forgot_password, reset_password)
--     with app/core/cache.py; each request says which commands Redis answers.
--
-- Privacy.antt (Privacy/): app/core/privacy.py. anonymize_candidate_account over the rows, the
--     sessions, the cached users and the files; Erasure compares the rows that are left for two
--     holders of one account.
--
-- Matching.antt (Matching/): app/core/matching_engine.py. The six scores of a candidate for a job,
--     as exact fractions (Scores); Bounds and Skills follow the range of the sum and what a
--     further skill does to it. The parameters of the text operations, of the skill graph and of
--     the rounding are the record Language and a function.
--
-- SkillGraph.antt (SkillGraph/): app/core/skill_graph.py. The ontology, its lookup table, and the
--     search and the count of keywords, re.search and re.findall of a fixed keyword being
--     structural scans; Detected compares the two. Tests/SkillGraph.antt puts the graph in the
--     place of the parameters of the matching engine.
--
-- Queue.antt (Queue/): app/core/queue.py. The policies of the queues, enqueue_task and
--     enqueue_bulk, whose loop over range(0, n, 500) is a recursion on the number of chunks, (n +
--     499) / 500, as Python counts them. For how many commands Redis answers is an argument. Bulk
--     follows the jobs that a bulk leaves in Redis.
--
-- Tests.antt (Tests/): concrete runs, and every property at a concrete input.
--
-- What is not modelled: the web frontend, migrations, deployment and monitoring files, the
-- language models and their data sets, e-mail and calendar clients, and failures of the database,
-- and of Redis outside Queue, Interviews and Auth/Passwords. Concurrency is modelled where the
-- code handles it, in the rotation of refresh tokens; a database transaction of a handler is one
-- step. Floating point is not modelled: seconds, years and kilometres are natural numbers, the
-- scores of the matching engine exact fractions, the agents' claims, scores and confidences are in
-- hundredths with the rounding as a parameter, and a difference that Python could make negative is
-- written so that the cut at zero gives the same test.
pub mod Prelude
pub mod Exec
pub mod StateMachine
pub mod Board
pub mod Tenancy
pub mod Experience
pub mod ExperienceAgent
pub mod Supervisor
pub mod Sessions
pub mod Auth
pub mod Pagination
pub mod Retention
pub mod Search
pub mod SkillGraph
pub mod Crypto
pub mod Interviews
pub mod Privacy
pub mod Queue
pub mod Matching
pub mod Tests
