-- ===== src/Lib.antt =====
-- Operations management: the inventory, the orders and the accounts of a shop behind a web API.
--
-- The program keeps products, categories and locations; the stock of a product at a location, with
-- the pieces that are reserved and a reorder point; the movements that record every change; and
-- orders, whose confirmation reserves stock and whose cancellation or completion releases or ships
-- it. A request works in one database session, which app/infra/database/session.py commits on a
-- return and rolls back on a raise; services commit in between as well.
--
-- Files, with the code they model:
--   Base, Int, Table, Text   Python's Booleans, lists, integers, ASCII texts, and database tables as
--                            lists of rows with a key; Base also passes library names on
--   Errors                   app/common/errors.py, app/common/handlers.py and the exceptions.py of
--                            app/inventory, app/orders, app/rbac, app/auth, app/users and
--                            app/assistant
--   Session                  app/infra/database/session.py: the database as the session sees it and
--                            as it is committed, the clock and the uuids that are drawn, and what the
--                            service object holds; a call is a function on sessions that may raise
--   Redis                    app/infra/redis/client.py: whether there is a client that answers
--   Shop                     app/inventory/models, app/orders/models: the tables as records
--   Stock                    app/inventory/service.py, the stock section, with
--                            app/inventory/repositories/stock_repo.py
--   Reservations             app/inventory/service.py, reserve_for_item, release_for_item and
--                            fulfill_for_item, with repositories/reservation_repo.py
--   Catalog                  app/inventory/service.py, products, categories and locations, with their
--                            repositories
--   Orders                   app/orders/models/order.py, app/orders/repository.py and
--                            app/orders/service.py
--   Requests                 the writing routes of app/inventory/router.py and app/orders/router.py;
--                            Requests.Routes has their tokens, permissions and location header
--   Rbac                     app/rbac/service.py with its models and repositories; Rbac.Guard is
--                            app/rbac/dependencies.py, Rbac.Requests app/rbac/routers.py
--   Auth                     app/auth/service.py with its model and repositories; Auth.Identity is
--                            app/auth/dependencies.py and the reading of tokens, Auth.Requests
--                            app/auth/routers.py
--   Users                    app/users/service.py with its repository, and the writing routes of
--                            app/users/router.py
--   Replenishment            app/inventory/replenishment.py, and get_replenishment_suggestions of
--                            app/inventory/service.py
--   Reports                  the calls of app/inventory/service.py and app/orders/service.py that
--                            only read, the search for products down to its pattern
--   Assistant                app/assistant/service.py, app/assistant/usage.py and
--                            app/assistant/tools
--   RateLimit                app/infra/rate_limit: policies, the script of the token bucket, and
--                            what a route answers
--   Worker                   app/worker/tasks/stock_alert.py, with the recipients of an alert
--   Bootstraps               app/bootstraps, the scripts that seed permissions and roles
--   Tests                    sample data, runs, and theorems at inputs
--
-- A function of the model has the name of the Python function, and takes the same arguments; code
-- that several functions share or that follows their checks is a definition of its own. `commit`
-- stands where the code commits, so that what a failure leaves behind can be read off. The database
-- refuses a row as its constraints say (`product_refused`, `stock_refused`, `item_refused` and the
-- like), with `integrity_error`. Requests are served one after another: rows are read FOR UPDATE in
-- the code, and interleavings of sessions are not modelled. Quantities are unbounded integers, as
-- Python's; the bounds of the database's integer columns are not modelled. Two loops have a
-- bound, which the code has too: the five rounds of `create_order` and the `max_iterations` calls of
-- the assistant; all other recursion is on lists. The delivery of a low-stock alert is a job queue's: the notifier never raises, and the
-- model keeps the list of stock rows that it was called with. Random numbers of order codes and
-- SQLAlchemy's answer to a `None` in a relationship are arguments, and so are Python's floats, as a
-- record of the operations that the replenishment report uses, and the hashes and signatures of
-- app/auth.
--
-- The assistant's language model is a function from the number of a call and the conversation to a
-- reply, so that it may answer anything; a deadline passes while such a call is awaited. Tools'
-- inputs are validated by a parameter, as pydantic does. Redis has a counter or a bucket for each
-- key, and may be off or down; the numbers of the token bucket's script are a parameter, with the laws
-- of rounded numbers that the theorem needs. The parts of the database that app/rbac and app/auth read
-- are two records, and a call that reads both takes both.
--
-- The seeds' codes are arguments: the constants of
-- app/common/constants give them, as a set in no fixed order.
--
-- The database's answers are written out as Postgres documents them: which rows it refuses, and the
-- matching of ILIKE. Foreign keys to the users' table (`created_by` of a movement, `user_id` of an
-- order) are not among the refusals, since users are in another record and the caller was read in the
-- same request. The client of the language model fails by an `LLMError` or the deadline alone; what
-- else `LLMClient._call` may let through is left out.
--
-- Left out: the schemas, the bodies of routes that only pass on, the identity of a caller for a rate
-- limit, mail, logging and configuration; the expiry of keys in Redis; a NUL in a search, which
-- Postgres refuses; the time stamps of a user.
pub mod Base
pub mod Int
pub mod Table
pub mod Text
pub mod Errors
pub mod Session
pub mod Redis
pub mod Shop
pub mod Stock
pub mod Catalog
pub mod Reservations
pub mod Orders
pub mod Requests
pub mod Rbac
pub mod Auth
pub mod Users
pub mod Replenishment
pub mod Reports
pub mod Assistant
pub mod RateLimit
pub mod Worker
pub mod Bootstraps
pub mod Tests
