-- ===== src/Lib.antt =====
-- The issuance rules of the certificate authority: which names a policy lets into a certificate, how
-- an ACME order comes to its certificate, and which durations a provisioner hands out.
--
-- The name policy engine (policy/) holds permitted and excluded constraints for each kind of name.
-- The authority asks it about the names of a request. The files:
--   Policy/Types        the data of policy/engine.go (NamePolicyReason, NameType, NamePolicyError),
--                       URLs, IP networks, and `External`, the third-party functions that the code
--                       calls (package idna, x509util.SplitSANs, the text formats of package net)
--   Policy/Labels       domainToReverseLabels of policy/validate.go
--   Policy/Mailbox      parseRFC2821Mailbox of policy/validate.go
--   Policy/Network      matchIPConstraint of policy/validate.go with what it uses of package net, and
--                       networkFor and isIPv4 of policy/options.go
--   Policy/Matching     the other match...Constraint functions of policy/validate.go
--   Policy/Constraints  checkNameConstraints of policy/validate.go
--   Policy/Engine       NamePolicyEngine, validateNames (one function for each of its loops) and
--                       validateCommonName of policy/validate.go
--   Policy/Entry        the exported checks of policy/engine.go, and splitSSHPrincipals
--   Policy/Dedupe       removeDuplicates and removeDuplicateIPNets of policy/engine.go
--   Policy/Build        New of policy/engine.go; an option is a function from engines to engines
--   Policy/Options      the options and, in Policy/Options/Normalize, the normalizeAndValidate...
--                       functions of policy/options.go
--
-- The ACME server (acme/) moves authorizations and orders through their statuses. It calls a database
-- through the interface DB of acme/db.go, which is the record `Db` over any type of states, and the
-- authority and the provisioner, which are the record `Signer`. The files:
--   Acme/Types          Status, Identifier, Challenge, Authorization, Order, and errors with
--                       WrapErrorISE of acme/errors.go
--   Acme/Db             the operations of DB that challenges, authorizations and orders call
--   Acme/Account        Account, ExternalAccountKey, KeyToID and BindTo of acme/account.go
--   Acme/Challenge      Challenge.Validate, http01Validate, dns01Validate, tlsalpn01Validate and their
--                       helpers of acme/challenge.go, over a record `Client` of the network client
--                       and the cryptographic libraries; deviceAttest01Validate is an argument
--   Acme/Authorization  Authorization.UpdateStatus of acme/authorization.go
--   Acme/Order          Order.UpdateStatus of acme/order.go
--   Acme/Names          uniqueSortedLowerNames, uniqueSortedIPs and canonicalize of acme/order.go
--   Acme/Sans           Order.sans, numberOfIdentifierType and ipsAreEqual of acme/order.go
--   Acme/Finalize       Order.Finalize of acme/order.go
--
-- The database of the ACME server (acme/db/nosql/) keeps one table for each kind of object, and indexes
-- from keys to accounts, from accounts to orders and from provisioners to external account keys. It
-- calls the key-value store of the module github.com/smallstep/nosql, which is the record `Kv` over
-- any type of states; what that store documents is the record `KvLaws`. A stored text is a `Row`: the
-- value that was marshalled. The files:
--   Acme/Nosql             the tables and rows, `Kv`, and save of acme/db/nosql/nosql.go
--   Acme/Nosql/Laws        `KvLaws`, and save under it
--   Acme/Nosql/Nonce, Challenges, Authz, Orders, Accounts, Certs, Keys
--                          nonce.go, challenge.go, authz.go, order.go, account.go, certificate.go and
--                          eab.go of acme/db/nosql/; `nosql_db` of Orders is the record `Db` that
--                          orders call, filled with these operations
--   Acme/Nosql/WellFormed  which row may stand where; Acme/Nosql/Tables, Acme/Nosql/KeyTables and
--                          Acme/Nosql/Steps go through the operations
--   Acme/Nosql/Issued      Order.Finalize over these tables
-- Acme/Order/Keeps, Acme/Authorization/Keeps and Acme/Finalize/Keeps carry a property of the
-- database's state through the runs of UpdateStatus and Finalize.
--
-- The provisioners (authority/provisioner/): Provisioner/Claims has the Claimer of claims.go,
-- Provisioner/SignOptions the validators of names and keys of sign_options.go, and Provisioner/Validity
-- its modifiers and its validator of dates, with TimeDuration of timeduration.go. A time there is a
-- number of nanoseconds, the wrap-around of a duration is written out, and time.Now is read once.
--
-- Provisioner/SshValidity has the dates of SSH certificates of sign_ssh_options.go, with the wrap-around
-- of its integers.
--
-- The handlers for orders (acme/api/order.go) come before all that. NewOrder validates the identifiers of
-- a request, asks the policies of the account, of the provisioner and of the authority about each, makes
-- an authorization with its challenges for each, and stores the order; GetOrder and FinalizeOrder hand
-- an order to its owner only. Acme/Api has the requests, NewOrderRequest.Validate, newACMEPolicyEngine,
-- trimIfWildcard, the policy of an account of acme/account.go and ACME.AuthorizeOrderIdentifier of
-- authority/provisioner/acme.go; Acme/Api/NewOrder has NewOrder, newAuthorization and challengeTypes;
-- Acme/Api/Owned has GetOrder and FinalizeOrder. The database's operations are the record `OrderDb`
-- over any type of states. What the middleware puts into the context of a request, the body that was
-- parsed, the random tokens and the clock are arguments; the links of the reply are left out.
--
-- The authority's own policies. An administrator changes a policy through authority/policy.go, which
-- checks it against the administrators, stores it in the administration database and loads the engines
-- again. The files:
--   Authority/Linked         the messages of go.step.sm/linkedca: policies and administrators
--   Authority/Options        authority/policy/options.go, and LinkedToCertificates of policy.go there
--   Authority/Engine         NewX509PolicyEngine and newSSHPolicyEngine of authority/policy/policy.go,
--                            and engine.go of the same package
--   Authority/AdminDb        the interface of authority/admin/db.go that policies use, the store, which
--                            is the record `AdminKv`, and save of authority/admin/db/nosql/nosql.go
--   Authority/AdminDb/Rows   the rows of policy.go and admin.go of authority/admin/db/nosql/, with
--                            dbToLinked and linkedToDB
--   Authority/AdminDb/Policies, Admins
--                            the operations of the same two files; what the package relies on of its
--                            store is the record `AdminKvLaws` of Policies/Stored
--   Authority/Reload         authority/policy.go. NoLockOut is about the check, InForce and OverNosql
--                            about the engine in force after a change, Failures about the errors
--
-- The administrators (authority/administrator/): Administrator has Store, Update, the loads and the
-- counts of the Collection of collection.go, Administrator/Remove has Remove with sort.Search, and
-- Administrator/Find has Find. The maps share pointers to the administrators, so the type of an
-- administrator, which Update changes, is kept apart from them.
--
-- How code is modelled. A Go string or byte slice is the list of its bytes (`Bytes`), and a slice is a
-- list. A function that returns an error or may panic returns an `Outcome`: ok, err or panic; an index
-- out of range is a panic. A method that changes its receiver returns the new receiver, and one that
-- calls the database takes and returns the database's state; the receiver and the state come back
-- beside an error too. Error texts are left out, the kinds of errors are kept. A `nil` pointer is
-- `none`. Times are seconds, and time.Now is an argument,
-- as are random identifiers. Go maps that are only filled and listed are
-- the list of their keys. Letter case and white space are those of ASCII.
--
-- Recursion is structural, but for `search_loop`, the loop of sort.Search, which gets the length of
-- the list as fuel, of which each round halves the range, for `reverse_labels`, the loop of
-- domainToReverseLabels, which gets the length of the text as fuel, and `parse_blocks`, the loop of
-- parseBundle, which gets the length of the data: each round takes at least one byte away, so the fuel
-- suffices.
--
-- Not modelled: the other HTTP handlers of acme/api, those of api and authority/admin/api, device
-- attestation, the JSON of the rows of acme/db/nosql and its mutexes (an operation is one step), the
-- database db, the certificate signing of authority and cas, the cryptographic checks of the
-- provisioners, the configuration, the command line and SCEP.
pub mod Base
pub mod Policy
pub mod Acme
pub mod Provisioner
pub mod Administrator
pub mod Authority
