-- ===== src/Lib.antt =====
-- The Crossplane provider for Azure: the managed resources that it reconciles, the clients by which
-- it does so, and the proofs that what it sends, observes and decides fits together.
--
-- The program. Each kind of resource has API types (apis/<group>), a client (pkg/clients/<group>)
-- that converts between these types and those of the Azure SDK and decides whether Azure's resource
-- is up to date, and a controller (pkg/controller/<group>) that is called on one object at a time.
-- Most controllers implement Observe, Create, Update and Delete, which crossplane-runtime's managed
-- reconciler calls; those of storage accounts and containers have a reconciler of their own. All
-- clients share the helpers of pkg/clients/azure.go. The parts meet at the object, which a method
-- may change and store at the API server, and at Azure.
--
-- The files.
--   Prelude, Go       names of the libraries; Go's integers, errors, maps, methods and panics
--   Vendor            helpers of go-autorest, pkg/errors and crossplane-runtime that the code calls
--   Managed           the results of the managed reconciler's methods, and their common frame
--   Azure             pkg/clients/azure.go: Convert (To..., IsNotFound), LateInit (LateInitialize...),
--                     Operation (FetchAsyncOperation), Auth (GetAuthInfo and what it calls),
--                     Client (NewClient, ValidateClient, and the functions of other clients
--                     that decode credentials)
--   Sql.Types         apis/database/v1beta1/sql_types.go, pkg/clients/database/util.go
--   Sql.Postgresql    Params and Client: pkg/clients/database/postgresql.go; Controller:
--                     pkg/controller/database/postgresqlserver/managed.go
--   Sql.Mysql         the same for pkg/clients/database/mysql.go and
--                     pkg/controller/database/mysqlserver/managed.go
--   Sql.Rules         firewall rules and virtual network rules: Params for the functions of mysql.go
--                     and postgresql.go, which are the same in both; Firewall and VirtualNetwork:
--                     pkg/controller/database/mysqlserverfirewallrule/managed.go,
--                     mysqlservervirtualnetworkrule/managed.go and their copies for PostgreSQL
--   Sql.Configuration apis/database/v1beta1/configuration_types.go; Client:
--                     pkg/clients/database/configuration; Controller:
--                     pkg/controller/database/mysqlserverconfiguration/managed.go and
--                     postgresqlserverconfiguration/managed.go; Postgresql: what the latter shares
--   Storage           Types, Sdk and Convert: apis/storage/v1alpha3/account.go; Account: Client for
--                     pkg/clients/storage/account.go, Controller and Manager for
--                     pkg/controller/storage/account/account.go; Container: the same for
--                     pkg/clients/storage/container.go and
--                     pkg/controller/storage/container/container.go
--   Redis             Types: apis/cache/v1beta1/redis_types.go; Params: pkg/clients/redis/redis.go;
--                     Controller: pkg/controller/cache/redis.go
--   Network           Types: apis/network/v1alpha3/types.go; Params: pkg/clients/network/network.go;
--                     Controllers: pkg/controller/network/virtualnetwork/managed.go and
--                     pkg/controller/network/subnet/managed.go; PublicIp: the public IP addresses of
--                     these files, and pkg/controller/network/publicipaddress/managed.go; Tags:
--                     isIPTagsUpToDate of network.go; Order: the order of strings it sorts by
--   ResourceGroup     apis/v1alpha3/provider_types.go, pkg/clients/resourcegroup/resourcegroup.go and
--                     pkg/controller/resourcegroup/resourcegroup.go
--   KeyVault          apis/keyvault/v1alpha1/keyvault_secret_types.go; Params, and IsUpToDate in
--                     Controller: pkg/clients/keyvault/secret/keyvault_secret.go; Controller:
--                     pkg/controller/keyvault/secret/keyvault_secret.go
--   Dns               apis/dns/v1alpha1/dns_types.go; Sdk: the types of the SDK; Params and Records:
--                     pkg/clients/dns/dns.go; Zones and RecordSets: its two clients, and
--                     pkg/controller/dns/zone/managed.go and pkg/controller/dns/recordset/managed.go
--   Aks               apis/compute/v1alpha3/types.go; Sdk: the SDK's clients; Params and Client:
--                     pkg/clients/compute/aks.go; Kubeconfig and Controller:
--                     pkg/controller/compute/managed.go; Directory: what it relies on in Azure's
--                     directory of applications, as an interface
--   Cosmos            apis/database/v1alpha3/nosql_types.go; Properties:
--                     pkg/clients/database/cosmosdb/account.go; Controller:
--                     pkg/controller/database/cosmosdb/managed.go
--   References        the referencers.go of every group of apis: Resolve for a step, Database and Groups
--                     for the methods ResolveReferences
--   Connect           the methods Connect of all these controllers, with Azure.Connect for what
--                     they have in common; Aks: NewAggregateClient of pkg/clients/compute/aks.go
-- The modules below these that are named for a property hold its proof: RoundTrip, InSync,
-- Lifecycle, Creation, Polling, Consistency, Laws, Panics, Update, Guards, Patch, Drift, Settled,
-- Multiset, Deletion, KeyVault.Tags, Applications, Steps, Provision, Observation, Locations,
-- Progress, Completion, Naming, Ownership. The modules Tests, AccountTests, CompletionTests,
-- LocationTests, DirectoryTests and ContainerTests run the definitions on concrete inputs.
--
-- How the code is modelled. A function of the source is a definition of its name, in snake case. A
-- pointer is an Option, nil is none; a map is nil or a list of entries; a slice is nil or a list. An
-- `int` or `int32` is its bit pattern of 64 or 32 bits, and conversions between them are written
-- out. An error is a value of Err, which keeps what the code tests errors for. Where the code can
-- dereference nil, the result is an Outcome, which may be a panic. A time is its instant. A pointer
-- that the code compares with another carries its address.
--
-- A method acts on a Session: the object, and a world of which nothing is known. What the code calls
-- outside the repository is a field of a record that is an argument: an SDK client, the API server,
-- the sender that polls, the generator of passwords. Each call takes the world and returns its answer
-- with the next one, so that to say that nothing was called is to say that the world stayed, or that
-- the end is the same whatever the call would do. Vendor collects the pure helpers; Documented says
-- what their documentation promises, and Vendor.Standard has an instance that keeps it.
--
-- Bounds. The only fuel is that of strconv.Itoa, 20 digits, enough for 64 bits. No loop of the code
-- is unbounded: those over maps and slices are recursions on lists.
--
-- What is not modelled: time-outs and contexts, logging and events, JSON encoding, metadata of the
-- API types beyond what a controller reads, the resolver of references, concurrent reconciles of
-- different objects, the constructors of the SDK clients, the Setup functions and the generated
-- deep copies and accessors. The sorting of go-cmp, the deep copy of a secret, the reading of a
-- kubeconfig and of secrets, clocks and identifiers are parameters. The properties of a SQL server,
-- of a network resource, of a zone, a record set, a cluster or an account, and the pointers of IP
-- tags, in an answer of Azure are taken to be there.
mod Prelude
pub mod Go
pub mod Vendor
pub mod Azure
pub mod Managed
pub mod Sql
pub mod Storage
pub mod Redis
pub mod Network
pub mod ResourceGroup
pub mod KeyVault
pub mod Dns
pub mod Aks
pub mod Cosmos
pub mod References
pub mod Connect
