-- ===== src/Lib.antt =====
-- A model of the core of WMS Core, a warehouse management system of Python microservices, with
-- theorems about it. Its centre are two services: the inventory service, which keeps the stock and its
-- reservations, and the documents service, which keeps the imports, exports, sales and transfers that
-- move it. They meet in the message `InventoryMovementRequested`, which the documents service publishes
-- when a document is posted and the inventory service consumes, and in the reservation of a sale, for
-- which the documents service calls the inventory service. Around them stand the reporting service and
-- the customer and audit services, which consume the events of the others, the product service with
-- the catalog, the buffer of the gateway before the stream of events, and the locks that the
-- services share.
--
-- Base has the shared vocabulary: integers, tables as lists with find, update and sums, texts. Exec
-- has methods that change a state and may raise, with the rules to reason about them: what they keep
-- (Exec/Keeps), that they change nothing when they raise before their last step (Exec/Atomic), and
-- what they have done when they return (Exec/Ensures).
--
-- Inventory, for Services/inventory-service/src/app/modules/inventory:
--   * Rows and Session: the tables of infrastructure/models/*.py with their constraints, and the
--     database session of shared/core/database.py;
--   * Item: domain/entities/inventory.py and domain/value_objects.py;
--   * Stock, Reservations and Ledger: infrastructure/repositories/inventory_repo.py;
--   * Service with Record, Adjust, Reserve, Move, Confirm and Report: the methods of
--     application/services/inventory_service.py;
--   * Servicer: the handlers of Services/inventory-service/src/inventory_service/grpc_servicer.py and
--     event_consumer.py that change the stock, from one database state to the next;
--   * Invariant and Totals, and the children of Reservations, Service/Move and Servicer: the proofs.
--
-- Documents, for Services/documents-service/src/app/modules/documents:
--   * Types: the enumerations of domain/entities/document.py and domain/transaction_types.py;
--   * Document: the entity with its lines and statuses, domain/entities/document.py;
--   * Repo: infrastructure/repositories/document_repo.py with its models, and the id generator;
--   * Service with Create, Lifecycle and Execute: application/services/document_service.py;
--   * Reservation: its two methods that call the inventory service, with that service as a parameter;
--   * Document/Items, Repo/RoundTrip, Service/Creation, Service/Transitions, Service/Bounds,
--     Service/Confirmed and Service/Outcome: the proofs.
--
-- Reporting, for Services/reporting-service/src: Rows and Session are the tables of
-- app/modules/reporting/infrastructure/models/*.py and the database session, Stock, Project,
-- Transactions and Listings the methods of infrastructure/repositories/read_model_repo.py, Consumer its
-- `record_event` with `_ingest` of reporting_service/event_consumer.py. Proofs are in Stock/Matrix,
-- Consumer/Frame, Consumer/Delivery and Consumer/Adjustments.
--
-- Customers, for Services/customer-service/src: Rows and Repo are the tables and
-- app/modules/customers/infrastructure/repositories/customer_repo.py, Consumer is
-- customer_service/event_consumer.py, Record and Debt are the proofs.
--
-- Products, for Services/product-service/src/app/modules/products: Product is the entity, Repo the
-- repository, Service the service with its import; Catalog, Writes, Methods and Imports are the proofs.
--
-- Audit, for Services/audit-service/src: Repo is
-- app/modules/audit/infrastructure/repositories/audit_event_repo.py, Consumer the `_ingest` of
-- audit_service/event_consumer.py, Matches what a query asks for, Listing and Delivery the proofs.
--
-- Locking, for Services/audit-service/src/app/shared/core/locking.py: Lock and Semaphore, with the
-- commands of Redis as parameters that Locking/Redis describes, and Steps with the
-- interleavings, where a call of `release` or `extend` may end with an exception; Exclusion and
-- Expiry are the proofs.
-- Gateway/IngestBuffer, for Services/api-gateway/src/api_gateway/ingest_buffer.py, with Redis and the
-- publisher as a parameter, and the proofs in its children Order, History and Progress.
-- Gateway/Permissions, for permissions.py and authz.py beside it, with the permissions that the
-- routes ask for which create and post documents; Duties is the proof.
-- The modules named Tests run the models on concrete data.
--
-- How the code is read. An id is a natural number, where the code refuses 0 and below alike; a
-- quantity is an integer without bound, as in Python; a price is a whole number of the smallest unit;
-- a time is an argument. An exception is a value, and what was written before it stays written in
-- the session until that is closed, which drops what was not committed. Sessions do not flush before a
-- query, so an added row is seen only after a flush, and a flush that breaks a constraint raises.
-- The publisher of events is not part of the repository: it may refuse any event, and its refusal is
-- raised like any error, also after a commit. What a column of type `DateTime` gives back for a time,
-- and the order in which a document's lines are read, are up to the database: parameters too.
-- The repositories commit nothing themselves, since they are built with `auto_commit=False`. The id
-- that the database gives to a new row is a parameter, a function of the ids in use. Requests
-- come one after the other. Loops are recursions on their lists, so nothing needs fuel but the
-- digits of a number (`str_of`), where a number is more than the count of its digits, and the turns
-- of the buffer's worker (`turns`), where the length of the queue is enough.
--
-- A lock's time to live runs out only in the server, and a theorem that needs the lock to last says
-- so.
--
-- Not modelled: the warehouse and identity services, and the routes of the gateway, which
-- translate between HTTP and gRPC; database sessions that run at the same time, with their locks; the
-- library `shared_utils`, which is not in the repository and delivers the messages (a message is
-- handled once, or again with the same envelope); most listings for the user interface; the texts of
-- messages; bounds of the database's columns other than those that the entities check.
pub mod Base
pub mod Exec
pub mod Inventory
pub mod Documents
pub mod Reporting
pub mod Locking
pub mod Gateway
pub mod Customers
pub mod Products
pub mod Audit
